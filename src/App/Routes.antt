-- ===== src/App/Routes.antt =====
-- The routes: the decorators of the endpoints, and the routers that include each other (app/main.py,
-- app/api/v1/router.py, app/api/internal/router.py). FastAPI's choice of the route is a parameter.
use Prim.Native.String.{◌++◌ as text_append}
use buildos_auth_service.Core.RateLimit
use buildos_auth_service.Prelude.{ℕ, String, Option, none, some, List, [], ◌∷◌, ◌++◌}

pub data Method : Type 0 where
  get post : Method

pub data Endpoint : Type 0 where
  health readiness register login me logout check_availability change_password : Endpoint
  request_password_reset confirm_password_reset refresh_token revoke_token : Endpoint
  update_user_status : Endpoint

-- The arguments of a decorator `@router.get` or `@router.post`, with the rate of
-- `@limiter.limit` where there is one.
pub record Route : Type 0 where
  pub method : Method
  pub path : String
  pub endpoint : Endpoint
  pub status_code : ℕ
  pub rate : Option String

abbrev route : Method → String → Endpoint → ℕ → Option String → Route
route method path endpoint status_code rate = record {
  method = method;
  path = path;
  endpoint = endpoint;
  status_code = status_code;
  rate = rate;
}

-- `include_router(router, prefix=…)`
unfoldable pub include_router : String → List Route → List Route
include_router prefix [] = []
include_router prefix (r ∷ rest) =
    record r { path = text_append prefix r.path } ∷ include_router prefix rest

abbrev pub health_route : Route
health_route = route get "/health" health 200 none

abbrev pub readiness_route : Route
readiness_route = route get "/ready" readiness 200 none

abbrev pub register_route : Route
register_route = route post "/register" register 201 (some RateLimit.register)

abbrev pub login_route : Route
login_route = route post "/login" login 200 (some RateLimit.login)

abbrev pub me_route : Route
me_route = route get "/me" me 200 none

abbrev pub logout_route : Route
logout_route = route post "/logout" logout 200 none

abbrev pub check_availability_route : Route
check_availability_route =
    route get "/check-availability" check_availability 200 (some RateLimit.availability)

abbrev pub change_password_route : Route
change_password_route = route post "/change" change_password 200 none

abbrev pub request_password_reset_route : Route
request_password_reset_route = route post "/reset/request" request_password_reset 200 none

abbrev pub confirm_password_reset_route : Route
confirm_password_reset_route = route post "/reset/confirm" confirm_password_reset 200 none

abbrev pub refresh_token_route : Route
refresh_token_route = route post "/refresh" refresh_token 200 none

abbrev pub revoke_token_route : Route
revoke_token_route = route post "/revoke" revoke_token 200 none

abbrev pub update_user_status_route : Route
update_user_status_route = route post "/{user_id}/status" update_user_status 200 none

unfoldable pub health_router : List Route
health_router = health_route ∷ readiness_route ∷ []

unfoldable pub auth_router : List Route
auth_router = register_route ∷ login_route ∷ me_route ∷ logout_route ∷ check_availability_route ∷ []

unfoldable pub password_router : List Route
password_router =
    change_password_route ∷ request_password_reset_route ∷ confirm_password_reset_route ∷ []

unfoldable pub security_router : List Route
security_router = []

unfoldable pub token_router : List Route
token_router = refresh_token_route ∷ revoke_token_route ∷ []

-- The router of app/api/internal/endpoints/status.py, with its prefix.
unfoldable pub status_router : List Route
unfolding include_router
status_router = include_router "/internal/auth/users" (update_user_status_route ∷ [])

unfoldable pub internal_router : List Route
unfolding status_router
internal_router = status_router

-- The router of app/api/v1/router.py, with its prefix.
unfoldable pub v1_router : List Route
unfolding include_router auth_router password_router security_router token_router
v1_router = include_router "/v1" (
    include_router "/auth" auth_router
    ++ include_router "/password" password_router
    ++ include_router "/security" security_router
    ++ include_router "/token" token_router)

-- `create_application`: the routes of the application, in their order.
unfoldable pub create_application : List Route
unfolding include_router health_router auth_router password_router security_router token_router
create_application =
    health_router
    ++ include_router "/api/v1/auth" auth_router
    ++ include_router "/api/v1/password" password_router
    ++ include_router "/api/v1/security" security_router
    ++ include_router "/api/v1/token" token_router

-- The route of an endpoint in its own router.
abbrev pub route_of : Endpoint → Route
route_of health = health_route
route_of readiness = readiness_route
route_of register = register_route
route_of login = login_route
route_of me = me_route
route_of logout = logout_route
route_of check_availability = check_availability_route
route_of change_password = change_password_route
route_of request_password_reset = request_password_reset_route
route_of confirm_password_reset = confirm_password_reset_route
route_of refresh_token = refresh_token_route
route_of revoke_token = revoke_token_route
route_of update_user_status = update_user_status_route
