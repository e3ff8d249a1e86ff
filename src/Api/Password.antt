-- ===== src/Api/Password.antt =====
-- app/api/v1/password.py
pub mod Answer
use buildos_auth_service.Prelude.{String, Bool, Option, none}
use buildos_auth_service.External.{External}
use buildos_auth_service.Database.{Action, ◌>>=◌, return, with_session}
use buildos_auth_service.Services.Context.{personal_context}
use buildos_auth_service.Services.UserDirectory.{UserDirectory}
use buildos_auth_service.Services.Password as PasswordService
use buildos_auth_service.Services.Password.{PasswordChangeResult, PasswordResetResult}
use buildos_auth_service.Api.Errors.{catching, change_password_error, confirm_reset_error}
use buildos_auth_service.Api.Dependencies.{get_current_user_context}

unfoldable pub change_password :
    External
    → (access_token current_password new_password : String)
    → (ip_address user_agent : Option String) → Action PasswordChangeResult
unfolding get_current_user_context PasswordService.change_password change_password_error
    with_session
change_password x access_token current_password new_password ip_address user_agent =
    with_session (do
      current_user ← get_current_user_context x access_token
      catching change_password_error (
          PasswordService.change_password x current_user.user_id current_password new_password
            (personal_context ip_address user_agent) none))

-- The response is the field `requested`: the reset token stays in the service.
unfoldable pub request_password_reset :
    External → UserDirectory → (identifier : String) (ip_address : Option String) → Action Bool
unfolding PasswordService.request_reset with_session
request_password_reset x users identifier ip_address = with_session (do
  result ← PasswordService.request_reset x users identifier ip_address none
  return result.requested)

unfoldable pub confirm_password_reset :
    External
    → (reset_token new_password : String) (ip_address user_agent : Option String)
    → Action PasswordResetResult
unfolding PasswordService.confirm_reset confirm_reset_error with_session
confirm_password_reset x reset_token new_password ip_address user_agent = with_session (
    catching confirm_reset_error
      (PasswordService.confirm_reset x reset_token new_password ip_address user_agent none))
