-- ===== src/System/Consistency.antt =====
-- The columns of a row that say the same thing: a flag and the time that goes with it.
use buildos_auth_service.Prelude.{
  ℕ, ◌≡◌, String, Bool, true, not, ◌&&◌, ◌||◌, Option, some, arith, every, every-append,
  every-update, bool_eq, is_found, false, none, find, update,
}
use buildos_auth_service.External.{External}
use buildos_auth_service.Models.{AuthCredential, RefreshToken, PasswordReset}
use buildos_auth_service.Database.{World}
use buildos_auth_service.Services.Context.{RequestContext}
use buildos_auth_service.Services.UserDirectory.{UserDirectory}
use buildos_auth_service.Services.Authentication.{authenticate}
use buildos_auth_service.Services.Token.{
  Presented, TokenPair, retire_presented, issue_tokens, revoke, revoke_all,
}
use buildos_auth_service.Services.Password.{change_password, request_reset, confirm_reset}
use buildos_auth_service.Services.CredentialSync.{sync_status, sync_credential}
use buildos_auth_service.Repositories.Credential
use buildos_auth_service.Services.Registration.{UserFields, register}
use buildos_auth_service.System.{CreateUser, undisturbed}
use buildos_auth_service.System.Kept.{IsKept}

-- A lock has an end, and only a lock.
abbrev pub credential_agrees : AuthCredential → Bool
credential_agrees c = bool_eq c.is_locked (is_found c.locked_until)

-- A revoked token has a time of revocation, and only a revoked token; what is replaced is revoked.
abbrev pub token_agrees : RefreshToken → Bool
token_agrees t =
    bool_eq t.is_revoked (is_found t.revoked_at)
    && (not (is_found t.replaced_by_token_id) || t.is_revoked)

-- A used password reset has a time of use, and only a used one.
abbrev pub reset_agrees : PasswordReset → Bool
reset_agrees r = bool_eq r.is_used (is_found r.used_at)

abbrev pub agrees : World → Bool
agrees w =
    every credential_agrees w.credentials
    && every token_agrees w.refresh_tokens
    && every reset_agrees w.password_resets

module _ (x : External) (w : World) (held : agrees w ≡ true) where
  authenticate-agrees :
      (user_id : ℕ) (password identifier : String) (context : RequestContext) (now : Option ℕ)
      → agrees (authenticate x user_id password identifier context now w).1 ≡ true
  unfolding authenticate
  authenticate-agrees user_id password identifier context now = grind (arith, held, every-update)

  issue_tokens-agrees :
      (user_id : ℕ) (context_type : String) (organization_id membership_id now : Option ℕ)
      → agrees (issue_tokens x user_id context_type organization_id membership_id now w).1 ≡ true
  unfolding issue_tokens every
  issue_tokens-agrees user_id context_type organization_id membership_id now =
      grind (arith, held, every-append, every-update)

  revoke_all-agrees :
      (user_id : ℕ) (context_type : Option String) (organization_id membership_id now : Option ℕ)
      → agrees (revoke_all user_id context_type organization_id membership_id now w).1 ≡ true
  unfolding revoke_all
  revoke_all-agrees user_id context_type organization_id membership_id now =
      grind (arith, held, every-update)

  revoke-agrees :
      (token : String) (ip_address user_agent : Option String) (now : Option ℕ)
      → agrees (revoke x token ip_address user_agent now w).1 ≡ true
  unfolding revoke
  revoke-agrees token ip_address user_agent now = grind (arith, held, every-update)

  change_password-agrees :
      (user_id : ℕ) (current_password new_password : String) (context : RequestContext)
      (now : Option ℕ)
      → agrees (change_password x user_id current_password new_password context now w).1 ≡ true
  unfolding change_password
  change_password-agrees user_id current_password new_password context now =
      grind (arith, held, every-update)

  request_reset-agrees :
      (users : UserDirectory) (identifier : String) (ip_address : Option String) (now : Option ℕ)
      → agrees (request_reset x users identifier ip_address now w).1 ≡ true
  unfolding request_reset every
  request_reset-agrees users identifier ip_address now = grind (arith, held, every-append)

  confirm_reset-agrees :
      (reset_token new_password : String) (ip_address user_agent : Option String) (now : Option ℕ)
      → agrees (confirm_reset x reset_token new_password ip_address user_agent now w).1 ≡ true
  unfolding confirm_reset
  confirm_reset-agrees reset_token new_password ip_address user_agent now =
      grind (arith, held, every-update)

  activity-agrees :
      (id : ℕ) (is_active : Bool)
      → agrees (record w {
        credentials =
            update (Credential.has_id id) (λ c. record c { is_active = is_active }) w.credentials;
      })
        ≡ true
  activity-agrees id is_active = grind (arith, held, every-update)

  sync_credential-agrees :
      (user_status : String) (found : Option AuthCredential)
      → agrees (sync_credential user_status found w).1 ≡ true
  unfolding Credential.activate Credential.deactivate
  sync_credential-agrees user_status none = held
  sync_credential-agrees user_status (some c) =
      ground (arith, held, activity-agrees c.id true, activity-agrees c.id false)

  sync_status-agrees :
      (user_id : ℕ) (user_status : String) (is_active : Bool)
      → agrees (sync_status user_id user_status is_active w).1 ≡ true
  unfolding sync_status
  sync_status-agrees user_id user_status is_active =
      sync_credential-agrees user_status (find (Credential.belongs_to user_id) w.credentials)

  retire_presented-agrees :
      (c : Presented) (ip_address user_agent : Option String) (at : ℕ) (pair : TokenPair)
      → agrees (retire_presented x c ip_address user_agent at pair w).1 ≡ true
  unfolding retire_presented
  retire_presented-agrees c ip_address user_agent at pair = grind (arith, held, every-update)

module _ (x : External) where
  register-agrees :
      (create_user : CreateUser) (key : String) (fields : UserFields) (password : String)
      (ip_address user_agent : Option String) (w : World)
      → agrees w ≡ true
      → agrees (register x (undisturbed create_user) key fields password ip_address user_agent w).1
        ≡ true
  unfolding register every
  register-agrees create_user key fields password ip_address user_agent w held =
      grind (arith, held, every-append, every-update)

  pub agrees-IsKept : IsKept x (λ w. agrees w ≡ true)
  agrees-IsKept = record {
    drawn = λ draws w h. h;
    waited = λ n w h. h;
    issued = λ user_id context_type organization_id membership_id now w at h.
        issue_tokens-agrees x w h user_id context_type organization_id membership_id now;
    authenticated = λ user_id password identifier context w h.
        authenticate-agrees x w h user_id password identifier context none;
    registered = λ create_user key fields password ip_address user_agent w h.
        register-agrees create_user key fields password ip_address user_agent w h;
    retired = λ c ip_address user_agent at pair w h.
        retire_presented-agrees x w h c ip_address user_agent at pair;
    revoked =
        λ token ip_address user_agent now w h. revoke-agrees x w h token ip_address user_agent now;
    changed = λ user_id current_password new_password context now w h.
        change_password-agrees x w h user_id current_password new_password context now;
    requested = λ users identifier ip_address w h.
        request_reset-agrees x w h users identifier ip_address none;
    confirmed = λ reset_token new_password ip_address user_agent now w h.
        confirm_reset-agrees x w h reset_token new_password ip_address user_agent now;
    synchronized =
        λ user_id user_status is_active w h. sync_status-agrees x w h user_id user_status is_active;
  }
