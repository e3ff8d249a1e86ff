-- ===== src/Services/Login.antt =====
-- app/services/login_service.py
pub mod Decision
use Prim.Native.String.{◌++◌ as text_append}
use buildos_auth_service.Prelude.{String, Bool, not, ◌||◌, none, str_eq, if◌then◌else◌}
use buildos_auth_service.Core.Exceptions.{Error, invalid_credentials, account_locked, user_deleted}
use buildos_auth_service.External.{External}
use buildos_auth_service.Database.{Action, lift, raise_if, or_raise, ◌>>=◌, ◌>>◌, return}
use buildos_auth_service.Services.Context.{RequestContext}
use buildos_auth_service.Services.UserDirectory.{UserDirectory}
use buildos_auth_service.Services.Authentication.{AuthenticationResult, authenticate}

-- `status in ALLOWED_LOGIN_STATUSES`
unfoldable pub is_allowed_status : String → Bool
is_allowed_status s = str_eq s "active" || (str_eq s "verification_pending" || str_eq s "pending")

-- The exception for a status that is not allowed.
unfoldable pub status_error : String → Error
status_error s =
    if str_eq s "deleted"
    then user_deleted "This account has been deleted."
    else if str_eq s "suspended" || (str_eq s "restricted" || str_eq s "deactivated")
    then account_locked (text_append "Account is " (text_append s "."))
    else invalid_credentials "Account is not active."

-- The `LoginResult` has the one field `authentication`.
unfoldable pub login :
    External
    → UserDirectory
    → (identifier password : String) (context : RequestContext) → Action AuthenticationResult
unfolding is_allowed_status status_error
login x users identifier password context = do
  resolved ← lift (users.resolve_identifier identifier)
  user_id ← or_raise resolved (invalid_credentials "Invalid credentials.")
  user_status ← lift (users.get_user_status user_id)
  raise_if (not (is_allowed_status user_status.status)) (status_error user_status.status)
  authentication ← authenticate x user_id password identifier context none
  raise_if (not authentication.authenticated) (invalid_credentials "Invalid credentials.")
  return authentication
