-- ===== src/System/Used.antt =====
-- The used flag of a password reset's row, through each operation of the services.
use buildos_auth_service.Prelude.{
  ℕ, ◌≡◌, String, Bool, true, Option, some, arith, find, none, false, find-append, find-update,
}
use buildos_auth_service.External.{External}
use buildos_auth_service.Database.{World}
use buildos_auth_service.Services.Context.{RequestContext}
use buildos_auth_service.Services.UserDirectory.{UserDirectory}
use buildos_auth_service.Services.Authentication.{authenticate}
use buildos_auth_service.Services.Token.{
  Presented, TokenPair, retire_presented, issue_tokens, revoke, revoke_all,
}
use buildos_auth_service.Repositories.PasswordResets.{has_hash}
use buildos_auth_service.Services.Password.{change_password, request_reset, confirm_reset}
use buildos_auth_service.Services.CredentialSync.{sync_status}
use buildos_auth_service.Services.Registration.{UserFields, register}
use buildos_auth_service.System.{CreateUser, undisturbed}
use buildos_auth_service.System.Kept.{IsKept}

-- The token's stored row is used.
abbrev pub is_used : String → World → Bool
is_used hash w = elim (find (has_hash hash) w.password_resets) [ none ↦ false | some r ↦ r.is_used ]

module _ (x : External) (hash : String) (w : World) (used : is_used hash w ≡ true) where
  authenticate-used :
      (user_id : ℕ) (password identifier : String) (context : RequestContext) (now : Option ℕ)
      → is_used hash (authenticate x user_id password identifier context now w).1 ≡ true
  unfolding authenticate
  authenticate-used user_id password identifier context now = ground (arith, used)

  issue_tokens-used :
      (user_id : ℕ) (context_type : String) (organization_id membership_id now : Option ℕ)
      → is_used hash (issue_tokens x user_id context_type organization_id membership_id now w).1
        ≡ true
  unfolding issue_tokens
  issue_tokens-used user_id context_type organization_id membership_id now =
      grind (arith, used, find-append)

  revoke_all-used :
      (user_id : ℕ) (context_type : Option String) (organization_id membership_id now : Option ℕ)
      → is_used hash (revoke_all user_id context_type organization_id membership_id now w).1 ≡ true
  unfolding revoke_all
  revoke_all-used user_id context_type organization_id membership_id now =
      grind (arith, used, find-update)

  revoke-keeps_used :
      (token : String) (ip_address user_agent : Option String) (now : Option ℕ)
      → is_used hash (revoke x token ip_address user_agent now w).1 ≡ true
  unfolding revoke
  revoke-keeps_used token ip_address user_agent now = grind (arith, used, find-update)

  change_password-used :
      (user_id : ℕ) (current_password new_password : String) (context : RequestContext)
      (now : Option ℕ)
      → is_used hash (change_password x user_id current_password new_password context now w).1
        ≡ true
  unfolding change_password
  change_password-used user_id current_password new_password context now =
      grind (arith, used, find-update)

  request_reset-used :
      (users : UserDirectory) (identifier : String) (ip_address : Option String) (now : Option ℕ)
      → is_used hash (request_reset x users identifier ip_address now w).1 ≡ true
  unfolding request_reset
  request_reset-used users identifier ip_address now = grind (arith, used, find-append)

  confirm_reset-used :
      (reset_token new_password : String) (ip_address user_agent : Option String) (now : Option ℕ)
      → is_used hash (confirm_reset x reset_token new_password ip_address user_agent now w).1 ≡ true
  unfolding confirm_reset
  confirm_reset-used reset_token new_password ip_address user_agent now =
      grind (arith, used, find-update)

  sync_status-used :
      (user_id : ℕ) (user_status : String) (is_active : Bool)
      → is_used hash (sync_status user_id user_status is_active w).1 ≡ true
  unfolding sync_status
  sync_status-used user_id user_status is_active = ground (arith, used)

  retire_presented-used :
      (c : Presented) (ip_address user_agent : Option String) (at : ℕ) (pair : TokenPair)
      → is_used hash (retire_presented x c ip_address user_agent at pair w).1 ≡ true
  unfolding retire_presented
  retire_presented-used c ip_address user_agent at pair = grind (arith, used, find-update)

module _ (x : External) (hash : String) where
  register-used :
      (create_user : CreateUser) (key : String) (fields : UserFields) (password : String)
      (ip_address user_agent : Option String) (w : World)
      → is_used hash w ≡ true
      → is_used hash
          (register x (undisturbed create_user) key fields password ip_address user_agent w).1
        ≡ true
  unfolding register
  register-used create_user key fields password ip_address user_agent w used =
      grind (arith, used, find-append)

  pub is_used-IsKept : IsKept x (λ w. is_used hash w ≡ true)
  is_used-IsKept = record {
    drawn = λ draws w h. h;
    waited = λ n w h. h;
    issued = λ user_id context_type organization_id membership_id now w at h.
        issue_tokens-used x hash w h user_id context_type organization_id membership_id now;
    authenticated = λ user_id password identifier context w h.
        authenticate-used x hash w h user_id password identifier context none;
    registered = λ create_user key fields password ip_address user_agent w h.
        register-used create_user key fields password ip_address user_agent w h;
    retired = λ c ip_address user_agent at pair w h.
        retire_presented-used x hash w h c ip_address user_agent at pair;
    revoked = λ token ip_address user_agent now w h.
        revoke-keeps_used x hash w h token ip_address user_agent now;
    changed = λ user_id current_password new_password context now w h.
        change_password-used x hash w h user_id current_password new_password context now;
    requested = λ users identifier ip_address w h.
        request_reset-used x hash w h users identifier ip_address none;
    confirmed = λ reset_token new_password ip_address user_agent now w h.
        confirm_reset-used x hash w h reset_token new_password ip_address user_agent now;
    synchronized = λ user_id user_status is_active w h.
        sync_status-used x hash w h user_id user_status is_active;
  }
