-- ===== src/System/Past.antt =====
-- A refresh token's row, and its revoked flag, through each operation of the services.
use buildos_auth_service.Prelude.{
  ℕ, ◌≡◌, String, Bool, true, Option, arith, find, none, some, false, ◌||◌, find-append,
  find-update,
}
use buildos_auth_service.External.{External}
use buildos_auth_service.Database.{World}
use buildos_auth_service.Services.Context.{RequestContext}
use buildos_auth_service.Services.UserDirectory.{UserDirectory}
use buildos_auth_service.Services.Authentication.{authenticate}
use buildos_auth_service.Services.Token.{
  Presented, TokenPair, retire_presented, issue_tokens, revoke, revoke_all,
}
use buildos_auth_service.Repositories.Token.{has_hash}
use buildos_auth_service.Services.Password.{change_password, request_reset, confirm_reset}
use buildos_auth_service.Services.CredentialSync.{sync_status}
use buildos_auth_service.Services.Registration.{UserFields, register}
use buildos_auth_service.System.{CreateUser, undisturbed}
use buildos_auth_service.System.Kept.{IsKept}

-- The row with the hash is there and, where only `false` is given, revoked.
abbrev pub is_past : Bool → String → World → Bool
is_past any hash w = elim (find (has_hash hash) w.refresh_tokens) [
  | none ↦ false
  | some t ↦ any || t.is_revoked
]

module _ (x : External) (any : Bool) (hash : String) (w : World)
    (past : is_past any hash w ≡ true) where
  authenticate-past :
      (user_id : ℕ) (password identifier : String) (context : RequestContext) (now : Option ℕ)
      → is_past any hash (authenticate x user_id password identifier context now w).1 ≡ true
  unfolding authenticate
  authenticate-past user_id password identifier context now = ground (arith, past)

  issue_tokens-past :
      (user_id : ℕ) (context_type : String) (organization_id membership_id now : Option ℕ)
      → is_past any hash (issue_tokens x user_id context_type organization_id membership_id now w).1
        ≡ true
  unfolding issue_tokens
  issue_tokens-past user_id context_type organization_id membership_id now =
      grind (arith, past, find-append)

  revoke_all-past :
      (user_id : ℕ) (context_type : Option String) (organization_id membership_id now : Option ℕ)
      → is_past any hash (revoke_all user_id context_type organization_id membership_id now w).1
        ≡ true
  unfolding revoke_all
  revoke_all-past user_id context_type organization_id membership_id now =
      grind (arith, past, find-update)

  revoke-keeps_past :
      (token : String) (ip_address user_agent : Option String) (now : Option ℕ)
      → is_past any hash (revoke x token ip_address user_agent now w).1 ≡ true
  unfolding revoke
  revoke-keeps_past token ip_address user_agent now = grind (arith, past, find-update)

  change_password-past :
      (user_id : ℕ) (current_password new_password : String) (context : RequestContext)
      (now : Option ℕ)
      → is_past any hash (change_password x user_id current_password new_password context now w).1
        ≡ true
  unfolding change_password
  change_password-past user_id current_password new_password context now =
      grind (arith, past, find-update)

  request_reset-past :
      (users : UserDirectory) (identifier : String) (ip_address : Option String) (now : Option ℕ)
      → is_past any hash (request_reset x users identifier ip_address now w).1 ≡ true
  unfolding request_reset
  request_reset-past users identifier ip_address now = ground (arith, past)

  confirm_reset-past :
      (reset_token new_password : String) (ip_address user_agent : Option String) (now : Option ℕ)
      → is_past any hash (confirm_reset x reset_token new_password ip_address user_agent now w).1
        ≡ true
  unfolding confirm_reset
  confirm_reset-past reset_token new_password ip_address user_agent now =
      grind (arith, past, find-update)

  sync_status-past :
      (user_id : ℕ) (user_status : String) (is_active : Bool)
      → is_past any hash (sync_status user_id user_status is_active w).1 ≡ true
  unfolding sync_status
  sync_status-past user_id user_status is_active = ground (arith, past)

  retire_presented-past :
      (c : Presented) (ip_address user_agent : Option String) (at : ℕ) (pair : TokenPair)
      → is_past any hash (retire_presented x c ip_address user_agent at pair w).1 ≡ true
  unfolding retire_presented
  retire_presented-past c ip_address user_agent at pair = grind (arith, past, find-update)

module _ (x : External) (any : Bool) (hash : String) where
  register-past :
      (create_user : CreateUser) (key : String) (fields : UserFields) (password : String)
      (ip_address user_agent : Option String) (w : World)
      → is_past any hash w ≡ true
      → is_past any hash
          (register x (undisturbed create_user) key fields password ip_address user_agent w).1
        ≡ true
  unfolding register
  register-past create_user key fields password ip_address user_agent w past =
      grind (arith, past, find-append)

  pub is_past-IsKept : IsKept x (λ w. is_past any hash w ≡ true)
  is_past-IsKept = record {
    drawn = λ draws w h. h;
    waited = λ n w h. h;
    issued = λ user_id context_type organization_id membership_id now w at h.
        issue_tokens-past x any hash w h user_id context_type organization_id membership_id now;
    authenticated = λ user_id password identifier context w h.
        authenticate-past x any hash w h user_id password identifier context none;
    registered = λ create_user key fields password ip_address user_agent w h.
        register-past create_user key fields password ip_address user_agent w h;
    retired = λ c ip_address user_agent at pair w h.
        retire_presented-past x any hash w h c ip_address user_agent at pair;
    revoked = λ token ip_address user_agent now w h.
        revoke-keeps_past x any hash w h token ip_address user_agent now;
    changed = λ user_id current_password new_password context now w h.
        change_password-past x any hash w h user_id current_password new_password context now;
    requested = λ users identifier ip_address w h.
        request_reset-past x any hash w h users identifier ip_address none;
    confirmed = λ reset_token new_password ip_address user_agent now w h.
        confirm_reset-past x any hash w h reset_token new_password ip_address user_agent now;
    synchronized = λ user_id user_status is_active w h.
        sync_status-past x any hash w h user_id user_status is_active;
  }
