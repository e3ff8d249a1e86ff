-- ===== src/Services/Authentication.antt =====
-- app/services/authentication_service.py
pub mod Outcome
pub mod Effect
pub mod Lockout
use Prim.Native.String.{◌++◌ as text_append}
use buildos_auth_service.Prelude.{
  ℕ, String, Bool, true, false, not, Option, none, some, if◌then◌else◌,
}
use buildos_auth_service.Core.Failure
use buildos_auth_service.Core.Event
use buildos_auth_service.Core.Severity
use buildos_auth_service.Models.{AuthCredential}
use buildos_auth_service.External.{External}
use buildos_auth_service.Database.{Action, current_time, ◌>>=◌, ◌>>◌, return}
use buildos_auth_service.Repositories.Credential
use buildos_auth_service.Repositories.LoginAttempts
use buildos_auth_service.Repositories.Event as Events
use buildos_auth_service.Security.Authentication.{is_credential_locked}
use buildos_auth_service.Security.PasswordHashing.{verify_password}
use buildos_auth_service.Security.RateLimiting.{should_lock_account, get_lock_expiration}
use buildos_auth_service.Services.Context.{RequestContext}

pub record AuthenticationResult : Type 0 where
  pub authenticated : Bool
  pub user_id : Option ℕ
  pub credential : Option AuthCredential
  pub failure_reason : Option String

-- f'{{"reason":"{failure_reason}"}}'
abbrev pub reason_json : String → String
reason_json failure_reason = text_append "{\"reason\":\"" (text_append failure_reason "\"}")

-- `_record_failed_attempt`
unfoldable pub record_failed_attempt :
    External → String → Option ℕ → RequestContext → String → Action (Unit {0})
unfolding LoginAttempts.create Events.create_auth_event
record_failed_attempt x identifier user_id context failure_reason = do
  LoginAttempts.create x identifier false user_id context.context_type context.organization_id
      context.membership_id context.ip_address context.user_agent (some failure_reason)
  Events.create_auth_event x user_id context.context_type Event.login_failure
      context.organization_id context.membership_id context.ip_address context.user_agent
      (some (reason_json failure_reason))
  return tt

-- The end of `_handle_failed_password`, on the credential whose count has just been raised.
unfoldable pub lock_or_log :
    External → ℕ → RequestContext → ℕ → AuthCredential → Action AuthCredential
unfolding Credential.lock Events.create_auth_event Events.create_security_event should_lock_account
    get_lock_expiration
lock_or_log x user_id context now credential =
    if should_lock_account x.settings credential.failed_login_count
    then (do
      locked ← Credential.lock credential (some (get_lock_expiration x.settings (some now) now))
      Events.create_security_event x (some user_id) context.context_type Event.account_locked
          Severity.warning (some "Account locked after repeated failed login attempts.")
          context.organization_id context.membership_id context.ip_address context.user_agent
      return locked)
    else (do
      Events.create_auth_event x (some user_id) context.context_type Event.login_failure
          context.organization_id context.membership_id context.ip_address context.user_agent
          (some "{\"reason\":\"INVALID_CREDENTIALS\"}")
      return credential)

-- `_handle_failed_password`
unfoldable pub handle_failed_password :
    External → AuthCredential → String → ℕ → RequestContext → ℕ → Action AuthCredential
unfolding Credential.record_failed_login LoginAttempts.create lock_or_log
handle_failed_password x credential identifier user_id context now = do
  failed ← Credential.record_failed_login credential
  LoginAttempts.create x identifier false (some user_id) context.context_type
      context.organization_id context.membership_id context.ip_address context.user_agent
      (some Failure.invalid_credentials)
  lock_or_log x user_id context now failed

-- The end of `authenticate`: the password was right.
unfoldable pub complete_login :
    External → AuthCredential → String → ℕ → RequestContext → ℕ → Action AuthenticationResult
unfolding Credential.record_successful_login LoginAttempts.create Events.create_auth_event
complete_login x credential identifier user_id context now = do
  updated ← Credential.record_successful_login credential now
  LoginAttempts.create x identifier true (some user_id) context.context_type context.organization_id
      context.membership_id context.ip_address context.user_agent none
  Events.create_auth_event x (some user_id) context.context_type Event.login_success
      context.organization_id context.membership_id context.ip_address context.user_agent none
  return (record {
    authenticated = true;
    user_id = some user_id;
    credential = some updated;
    failure_reason = none;
  })

abbrev pub rejected : Option ℕ → Option AuthCredential → String → AuthenticationResult
rejected user_id credential failure_reason = record {
  authenticated = false;
  user_id = user_id;
  credential = credential;
  failure_reason = some failure_reason;
}

-- `authenticate` after the query, at the time `now`.
unfoldable pub check_credential :
    External
    → (user_id : ℕ) (password identifier : String) (context : RequestContext) (now : ℕ)
    → Option AuthCredential
    → Action AuthenticationResult
unfolding record_failed_attempt handle_failed_password complete_login is_credential_locked
    verify_password
check_credential x user_id password identifier context now none = do
  record_failed_attempt x identifier none context Failure.invalid_credentials
  return (rejected none none Failure.invalid_credentials)
check_credential x user_id password identifier context now (some credential) =
    if not credential.is_active
    then (do
      record_failed_attempt x identifier (some user_id) context Failure.credential_inactive
      return (rejected (some user_id) (some credential) Failure.credential_inactive))
    else if is_credential_locked credential (some now) now
    then (do
      record_failed_attempt x identifier (some user_id) context Failure.account_locked
      return (rejected (some user_id) (some credential) Failure.account_locked))
    else if not (verify_password x password credential.password_hash)
    then (do
      updated ← handle_failed_password x credential identifier user_id context now
      return (
          rejected (some user_id) (some updated)
            (if updated.is_locked then Failure.account_locked else Failure.invalid_credentials)))
    else complete_login x credential identifier user_id context now

unfoldable pub authenticate :
    External
    → (user_id : ℕ) (password identifier : String) (context : RequestContext) (now : Option ℕ)
    → Action AuthenticationResult
unfolding check_credential Credential.get_by_user_id
authenticate x user_id password identifier context now = do
  at ← current_time now
  credential ← Credential.get_by_user_id user_id
  check_credential x user_id password identifier context at credential
