-- ===== src/Services/Password.antt =====
-- app/services/password_service.py
pub mod Change
pub mod Reset
pub mod Race
use buildos_auth_service.Prelude.{ℕ, ◌+◌, String, Bool, true, not, Option, none, some, ◌==◌, str_eq}
use buildos_auth_service.Core.Context
use buildos_auth_service.Core.Event
use buildos_auth_service.Core.Severity
use buildos_auth_service.Core.Config.{minutes}
use buildos_auth_service.Core.Exceptions.{invalid_credentials, password_reset}
use buildos_auth_service.External.{External}
use buildos_auth_service.Database.{
  Action, current_time, draw, lift, raise_if, or_raise, ◌>>=◌, ◌>>◌, return,
}
use buildos_auth_service.Models.{AuthCredential, PasswordReset}
use buildos_auth_service.Repositories.Credential
use buildos_auth_service.Repositories.Token
use buildos_auth_service.Repositories.PasswordResets
use buildos_auth_service.Repositories.Event as Events
use buildos_auth_service.Security.PasswordHashing.{hash_password, verify_password}
use buildos_auth_service.Services.Context.{RequestContext}
use buildos_auth_service.Services.UserDirectory.{UserDirectory}

pub record PasswordResetRequestResult : Type 0 where
  pub requested : Bool
  pub reset_token : Option String

pub record PasswordChangeResult : Type 0 where
  pub changed : Bool
  pub user_id : ℕ

pub record PasswordResetResult : Type 0 where
  pub reset : Bool
  pub user_id : ℕ

unfoldable pub hash_reset_token : External → String → String
hash_reset_token x token = x.sha256_hex token

unfoldable pub change_password :
    External
    → (user_id : ℕ) (current_password new_password : String) (context : RequestContext)
    → (now : Option ℕ) → Action PasswordChangeResult
unfolding Credential.get_by_user_id verify_password hash_password Credential.update_password
    Token.revoke_all_for_user Events.create_security_event
change_password x user_id current_password new_password context now = do
  at ← current_time now
  found ← Credential.get_by_user_id user_id
  credential ← or_raise found (invalid_credentials "Invalid credentials.")
  raise_if (not credential.is_active) (invalid_credentials "Invalid credentials.")
  raise_if (not (verify_password x current_password credential.password_hash))
      (invalid_credentials "Invalid credentials.")
  raise_if (str_eq current_password new_password)
      (invalid_credentials "New password must differ from the current password.")
  password_hash ← hash_password x new_password
  updated ← Credential.update_password credential password_hash at
  Token.revoke_all_for_user user_id at (some context.context_type) context.organization_id
      context.membership_id
  Events.create_security_event x (some user_id) context.context_type Event.password_changed
      Severity.info (some "User password changed successfully.") context.organization_id
      context.membership_id context.ip_address context.user_agent
  return (record { changed = updated.password_changed_at == at; user_id = user_id })

-- `request_reset` for a user that was found.
unfoldable pub open_reset : External → ℕ → Option String → ℕ → Action PasswordResetRequestResult
unfolding hash_reset_token PasswordResets.create Events.create_security_event
open_reset x user_id ip_address now = do
  d ← draw
  let reset_token = x.token_urlsafe 48 d
  let expires_at = now + minutes x.settings.password_reset_expire_minutes
  PasswordResets.create x user_id (hash_reset_token x reset_token) expires_at ip_address
  Events.create_security_event x (some user_id) Context.personal Event.password_reset_requested
      Severity.info (some "Password reset requested.") none none ip_address none
  return (record { requested = true; reset_token = some reset_token })

abbrev pub open_reset_if_known :
    External → Option ℕ → Option String → ℕ → Action PasswordResetRequestResult
open_reset_if_known x none ip_address now = return (record { requested = true; reset_token = none })
open_reset_if_known x (some user_id) ip_address now = open_reset x user_id ip_address now

unfoldable pub request_reset :
    External
    → UserDirectory
    → (identifier : String) (ip_address : Option String) (now : Option ℕ)
    → Action PasswordResetRequestResult
unfolding open_reset
request_reset x users identifier ip_address now = do
  at ← current_time now
  user_id ← lift (users.resolve_identifier identifier)
  open_reset_if_known x user_id ip_address at

-- The first half of `confirm_reset`: its checks.
abbrev pub check_reset : External → String → ℕ → Action (PasswordReset × AuthCredential)
check_reset x reset_token at = do
  found_reset ← PasswordResets.get_active_by_token_hash (hash_reset_token x reset_token) at
  reset ← or_raise found_reset (password_reset "Invalid or expired reset token.")
  found ← Credential.get_by_user_id reset.user_id
  credential ← or_raise found (password_reset "Password reset cannot be completed.")
  return (reset, credential)

-- The second half of `confirm_reset`, on the rows that its checks have found.
abbrev pub complete_reset :
    External
    → (new_password : String) (ip_address user_agent : Option String) → ℕ
    → PasswordReset × AuthCredential
    → Action PasswordResetResult
complete_reset x new_password ip_address user_agent at (reset, credential) = do
  password_hash ← hash_password x new_password
  Credential.update_password credential password_hash at
  PasswordResets.mark_used reset at
  Token.revoke_all_for_user reset.user_id at (some Context.personal) none none
  Events.create_security_event x (some reset.user_id) Context.personal
      Event.password_reset_completed Severity.info (some "Password reset completed successfully.")
      none none ip_address user_agent
  return (record { reset = true; user_id = reset.user_id })

unfoldable pub confirm_reset :
    External
    → (reset_token new_password : String) (ip_address user_agent : Option String) → (now : Option ℕ)
    → Action PasswordResetResult
unfolding hash_reset_token PasswordResets.get_active_by_token_hash Credential.get_by_user_id
    hash_password Credential.update_password PasswordResets.mark_used Token.revoke_all_for_user
    Events.create_security_event
confirm_reset x reset_token new_password ip_address user_agent now = do
  at ← current_time now
  checked ← check_reset x reset_token at
  complete_reset x new_password ip_address user_agent at checked
