-- ===== src/App/Call.antt =====
-- The calls of the application's endpoints, with what FastAPI takes from the request: the body, the
-- headers, the address of the client and the query.
use buildos_auth_service.Prelude.{String, Bool, true, Option, none, some, is_found}
use buildos_auth_service.Api.Auth.{LoginRequest}
use buildos_auth_service.Api.Register.{RegisterRequest}
use buildos_auth_service.Schemas.Auth.{accepts_register, accepts_login}
use buildos_auth_service.Schemas.Token.{accepts_refresh_token}
use buildos_auth_service.Schemas.Password.{
  accepts_change_password, password_reset_request, accepts_confirm_reset,
}
use buildos_auth_service.App.Routes as Routes
use buildos_auth_service.App.Routes.{Endpoint}

pub data Call : Type 0 where
  health readiness : Call
  register :
      (idempotency_key : Option String)
      → RegisterRequest
      → (ip_address user_agent : Option String) → Call
  login : LoginRequest → (ip_address user_agent : Option String) → Call
  me : (access_token : String) → Call
  logout : (refresh_token : String) (ip_address user_agent : Option String) → Call
  check_availability : (email username : Option String) → Call
  change_password :
      (access_token current_password new_password : String) (ip_address user_agent : Option String)
      → Call
  request_password_reset : (identifier : String) (ip_address : Option String) → Call
  confirm_password_reset :
      (reset_token new_password : String) (ip_address user_agent : Option String) → Call
  refresh_token : (token : String) (ip_address user_agent : Option String) → Call
  revoke_token : (token : String) (ip_address user_agent : Option String) → Call

abbrev pub endpoint_of : Call → Endpoint
endpoint_of health = Routes.health
endpoint_of readiness = Routes.readiness
endpoint_of (register key payload ip_address user_agent) = Routes.register
endpoint_of (login payload ip_address user_agent) = Routes.login
endpoint_of (me token) = Routes.me
endpoint_of (logout token ip_address user_agent) = Routes.logout
endpoint_of (check_availability email username) = Routes.check_availability
endpoint_of (change_password token current_password new_password ip_address user_agent) =
    Routes.change_password
endpoint_of (request_password_reset identifier ip_address) = Routes.request_password_reset
endpoint_of (confirm_password_reset reset_token new_password ip_address user_agent) =
    Routes.confirm_password_reset
endpoint_of (refresh_token token ip_address user_agent) = Routes.refresh_token
endpoint_of (revoke_token token ip_address user_agent) = Routes.revoke_token

-- The request schema of the endpoint accepts the body.
unfoldable pub accepts : Call → Bool
unfolding accepts_register accepts_login accepts_refresh_token accepts_change_password
    password_reset_request accepts_confirm_reset
accepts (register key payload ip_address user_agent) = accepts_register payload
accepts (login payload ip_address user_agent) = accepts_login payload
accepts (logout token ip_address user_agent) = accepts_refresh_token token
accepts (change_password token current_password new_password ip_address user_agent) =
    accepts_change_password current_password new_password
accepts (request_password_reset identifier ip_address) =
    is_found (password_reset_request identifier)
accepts (confirm_password_reset reset_token new_password ip_address user_agent) =
    accepts_confirm_reset reset_token new_password
accepts (refresh_token token ip_address user_agent) = accepts_refresh_token token
accepts (revoke_token token ip_address user_agent) = accepts_refresh_token token
accepts _ = true

-- The access token of an endpoint that has both a current user and a body.
abbrev pub token_of : Call → Option String
token_of (change_password token current_password new_password ip_address user_agent) = some token
token_of _ = none
