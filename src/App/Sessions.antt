-- ===== src/App/Sessions.antt =====
-- What the endpoints that write leave in the tables when they raise.
use buildos_auth_service.Prelude.{◌≡◌, String, true, Option, none}
use buildos_auth_service.Core.Exceptions.{Error}
use buildos_auth_service.Database.{World, Action, err, with_session, return, ◌>>◌, ◌>>=◌}
use buildos_auth_service.Services.Context.{personal_context}
use buildos_auth_service.Services.Token.{refresh, revoke}
use buildos_auth_service.Services.Logout as LogoutService
use buildos_auth_service.Services.Password as PasswordService
use buildos_auth_service.Api.Dependencies.{get_current_user_context}
use buildos_auth_service.Api.Errors.{
  catching, logout_error, refresh_error, revoke_error, change_password_error, confirm_reset_error,
}
use buildos_auth_service.Api.Auth as AuthApi
use buildos_auth_service.Api.Auth.{LoginRequest, login_handler}
use buildos_auth_service.Api.Auth.Rollback.{SameTables, with_session-SameTables}
use buildos_auth_service.Api.Register as RegisterApi
use buildos_auth_service.Api.Register.{RegisterRequest, register_handler}
use buildos_auth_service.Api.Token as TokenApi
use buildos_auth_service.Api.Password as PasswordApi
use buildos_auth_service.App.Serve.{Deployment}

-- What raises leaves the tables.
unfoldable pub RollsBack : {A : Type 0} → Action A → World → Type 0
RollsBack endpoint w = (e : Error) → (endpoint w).0 ≡ err e → SameTables w (endpoint w).1

with_session-RollsBack :
    {A : Type 0} (handler : Action A) (w : World) → RollsBack (with_session handler) w
unfolding RollsBack
with_session-RollsBack handler w e failed = with_session-SameTables handler w e failed

module _ (d : Deployment) (ip_address user_agent : Option String) (w : World) where
  pub logout-RollsBack :
      (token : String) → RollsBack (AuthApi.logout d.external token ip_address user_agent) w
  unfolding AuthApi.logout
  logout-RollsBack token =
      with_session-RollsBack
        (catching logout_error (LogoutService.logout d.external token ip_address user_agent)
          >> return true)
        w

  pub refresh_token-RollsBack :
      (token : String) → RollsBack (TokenApi.refresh_token d.external token ip_address user_agent) w
  unfolding TokenApi.refresh_token
  refresh_token-RollsBack token =
      with_session-RollsBack
        (catching refresh_error (refresh d.external token ip_address user_agent none)) w

  pub revoke_token-RollsBack :
      (token : String) → RollsBack (TokenApi.revoke_token d.external token ip_address user_agent) w
  unfolding TokenApi.revoke_token
  revoke_token-RollsBack token =
      with_session-RollsBack
        (catching revoke_error (revoke d.external token ip_address user_agent none) >> return true)
        w

  pub change_password-RollsBack :
      (token current_password new_password : String)
      → RollsBack
          (PasswordApi.change_password d.external token current_password new_password ip_address
            user_agent)
          w
  unfolding PasswordApi.change_password
  change_password-RollsBack token current_password new_password =
      with_session-RollsBack
        (get_current_user_context d.external token >>= λ current_user.
          catching change_password_error (
            PasswordService.change_password d.external current_user.user_id current_password
              new_password (personal_context ip_address user_agent) none))
        w

  pub request_password_reset-RollsBack :
      (identifier : String)
      → RollsBack (PasswordApi.request_password_reset d.external d.users identifier ip_address) w
  unfolding PasswordApi.request_password_reset
  request_password_reset-RollsBack identifier =
      with_session-RollsBack
        (PasswordService.request_reset d.external d.users identifier ip_address none >>= λ result.
          return result.requested)
        w

  pub confirm_password_reset-RollsBack :
      (reset_token new_password : String)
      → RollsBack
          (PasswordApi.confirm_password_reset d.external reset_token new_password ip_address
            user_agent)
          w
  unfolding PasswordApi.confirm_password_reset
  confirm_password_reset-RollsBack reset_token new_password =
      with_session-RollsBack
        (catching confirm_reset_error (
          PasswordService.confirm_reset d.external reset_token new_password ip_address user_agent
            none))
        w

  pub register-RollsBack :
      (key : Option String) (payload : RegisterRequest)
      → RollsBack
          (RegisterApi.register d.external d.surroundings key payload ip_address user_agent)
          w
  unfolding RegisterApi.register
  register-RollsBack key payload =
      with_session-RollsBack
        (register_handler d.external d.surroundings key payload ip_address user_agent) w

  pub login-RollsBack :
      (payload : LoginRequest)
      → RollsBack
          (AuthApi.login d.external d.users d.create_session payload ip_address user_agent)
          w
  unfolding AuthApi.login
  login-RollsBack payload =
      with_session-RollsBack
        (login_handler d.external d.users d.create_session payload ip_address user_agent) w
