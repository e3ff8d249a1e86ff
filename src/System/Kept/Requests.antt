-- ===== src/System/Kept/Requests.antt =====
-- Sequences of requests, from what the handlers keep.
use buildos_auth_service.Prelude.{String, Option, none, List, [], ◌∷◌, true}
use buildos_auth_service.External.{External}
use buildos_auth_service.Database.{World, bind-world, return, ◌>>=◌, ◌>>◌}
use buildos_auth_service.Services.UserDirectory.{UserDirectory}
use buildos_auth_service.Services.Context.{personal_context}
use buildos_auth_service.Services.Token.{refresh, revoke}
use buildos_auth_service.Services.Logout as LogoutService
use buildos_auth_service.Services.Password as PasswordService
use buildos_auth_service.Services.Password.{PasswordResetRequestResult}
use buildos_auth_service.Api.Errors.{
  catching, logout_error, refresh_error, revoke_error, change_password_error, confirm_reset_error,
}
use buildos_auth_service.Api.Dependencies.{verify_internal_service, get_current_user_context}
use buildos_auth_service.Api.Dependencies.Purity.{
  get_current_user_context-world, verify_internal_service-world,
}
use buildos_auth_service.Api.Auth.{CreateSession, login_handler}
use buildos_auth_service.Api.Auth as AuthApi
use buildos_auth_service.Api.Register as RegisterApi
use buildos_auth_service.Api.Register.{register_handler}
use buildos_auth_service.Api.Token as TokenApi
use buildos_auth_service.Api.Password as PasswordApi
use buildos_auth_service.Api.Status as StatusApi
use buildos_auth_service.System
use buildos_auth_service.System.{CreateUser, undisturbed, Request, handle, handle_all}
use buildos_auth_service.System.Kept.{IsKept}
use buildos_auth_service.System.Kept.Services.{refresh_keeps}
use buildos_auth_service.System.Kept.Handlers.{
  session_keeps, login_handler_keeps, register_handler_keeps, update_handler_keeps,
}

module _ (x : External) (users : UserDirectory) (create_session : CreateSession)
    (create_user : CreateUser) (Q : World → Type 0) (kept : IsKept x Q) where
  change_password_keeps :
      (access_token current_password new_password : String) (ip_address user_agent : Option String)
      (w : World)
      → Q w
      → Q
          (PasswordApi.change_password x access_token current_password new_password ip_address
            user_agent w).1
  unfolding PasswordApi.change_password
  change_password_keeps access_token current_password new_password ip_address user_agent w h =
      session_keeps x Q kept
        (get_current_user_context x access_token >>= λ current_user.
          catching change_password_error (
            PasswordService.change_password x current_user.user_id current_password new_password
              (personal_context ip_address user_agent) none))
        w h
        (bind-world Q (get_current_user_context x access_token w)
          (λ current_user. catching change_password_error (
            PasswordService.change_password x current_user.user_id current_password new_password
              (personal_context ip_address user_agent) none))
          (rw (get_current_user_context-world x access_token w) h)
          (λ current_user w' h'.
            kept.changed current_user.user_id current_password new_password
              (personal_context ip_address user_agent) none w' h'))

  logout_keeps :
      (token : String) (ip_address user_agent : Option String) (w : World)
      → Q w
      → Q (AuthApi.logout x token ip_address user_agent w).1
  unfolding AuthApi.logout
  logout_keeps token ip_address user_agent w h =
      session_keeps x Q kept
        (catching logout_error (LogoutService.logout x token ip_address user_agent) >> return true)
        w h
        (bind-world Q (catching logout_error (LogoutService.logout x token ip_address user_agent) w)
          (λ done. return true)
          (bind-world Q (revoke x token ip_address user_agent none w) (λ done. return true)
            (kept.revoked token ip_address user_agent none w h) (λ done w' h'. h'))
          (λ done w' h'. h'))

  handle_keeps :
      (request : Request) (w : World)
      → Q w
      → Q (handle x users create_session create_user request w)
  unfolding handle AuthApi.login RegisterApi.register TokenApi.refresh_token TokenApi.revoke_token
      PasswordApi.request_password_reset PasswordApi.confirm_password_reset
      StatusApi.update_user_status
  handle_keeps (System.register key payload ip_address user_agent) w h =
      session_keeps x Q kept
        (register_handler x (undisturbed create_user) key payload ip_address user_agent) w h
        (register_handler_keeps x Q kept create_user key payload ip_address user_agent w h)
  handle_keeps (System.login payload ip_address user_agent) w h =
      session_keeps x Q kept (login_handler x users create_session payload ip_address user_agent) w
        h (login_handler_keeps x Q kept create_session payload users ip_address user_agent w h)
  handle_keeps (System.logout token ip_address user_agent) w h =
      logout_keeps token ip_address user_agent w h
  handle_keeps (System.refresh_token token ip_address user_agent) w h =
      session_keeps x Q kept (catching refresh_error (refresh x token ip_address user_agent none)) w
        h (refresh_keeps x Q kept token ip_address user_agent w h)
  handle_keeps (System.revoke_token token ip_address user_agent) w h =
      session_keeps x Q kept
        (catching revoke_error (revoke x token ip_address user_agent none) >> return true) w h
        (bind-world Q (catching revoke_error (revoke x token ip_address user_agent none) w)
          (λ done. return true) (kept.revoked token ip_address user_agent none w h)
          (λ done w' h'. h'))
  handle_keeps
        (System.change_password access_token current_password new_password ip_address user_agent) w
        h =
      change_password_keeps access_token current_password new_password ip_address user_agent w h
  handle_keeps (System.request_password_reset identifier ip_address) w h =
      session_keeps x Q kept
        (PasswordService.request_reset x users identifier ip_address none >>= λ result.
          return result.requested)
        w h
        (bind-world Q (PasswordService.request_reset x users identifier ip_address none w)
          (λ (result : PasswordResetRequestResult). return result.requested)
          (kept.requested users identifier ip_address w h) (λ result w' h'. h'))
  handle_keeps (System.confirm_password_reset reset_token new_password ip_address user_agent) w h =
      session_keeps x Q kept
        (catching confirm_reset_error
          (PasswordService.confirm_reset x reset_token new_password ip_address user_agent none))
        w h (kept.confirmed reset_token new_password ip_address user_agent none w h)
  handle_keeps (System.update_user_status api_key service_id user_id payload) w h =
      session_keeps x Q kept
        (verify_internal_service x api_key service_id >> StatusApi.update_handler user_id payload) w
        h
        (bind-world Q (verify_internal_service x api_key service_id w)
          (λ done. StatusApi.update_handler user_id payload)
          (rw (verify_internal_service-world x api_key service_id w) h)
          (λ done w' h'. update_handler_keeps x Q kept user_id payload w' h'))
  handle_keeps (System.wait n) w h = kept.waited n w h

  pub handle_all_keeps :
      (requests : List Request) (w : World)
      → Q w
      → Q (handle_all x users create_session create_user requests w)
  unfolding handle_all
  handle_all_keeps [] w h = h
  handle_all_keeps (request ∷ rest) w h =
      handle_all_keeps rest (handle x users create_session create_user request w)
        (handle_keeps request w h)
