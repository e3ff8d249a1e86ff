-- ===== src/App/Serve.antt =====
-- A call through the application: the schema of the request, the rate limit and the endpoint.
use buildos_auth_service.Prelude.{
  ℕ, Bool, not, ◌&&◌, String, Option, none, some, is_found, if◌then◌else◌,
}
use buildos_auth_service.External.{External}
use buildos_auth_service.Database.{World, Action, Result, ok, err}
use buildos_auth_service.Integrations.Http.{Wire}
use buildos_auth_service.Services.Registration.{Surroundings}
use buildos_auth_service.Services.UserDirectory.{UserDirectory}
use buildos_auth_service.Schemas.Password.{password_reset_request}
use buildos_auth_service.Api.Dependencies.{get_current_user_context}
use buildos_auth_service.Api.Auth as AuthApi
use buildos_auth_service.Api.Auth.{CreateSession}
use buildos_auth_service.Api.Register as RegisterApi
use buildos_auth_service.Api.Token as TokenApi
use buildos_auth_service.Api.Password as PasswordApi
use buildos_auth_service.Api.Health as HealthApi
use buildos_auth_service.Api.Health.{ReadinessResponse}
use buildos_auth_service.App.Routes.{
  route_of, register_route, login_route, me_route, logout_route, check_availability_route,
  change_password_route, request_password_reset_route, confirm_password_reset_route,
  refresh_token_route, revoke_token_route,
}
use buildos_auth_service.System.{CreateUser, undisturbed}
use buildos_auth_service.App.Call.{
  Call, health, readiness, register, login, me, logout, check_availability, change_password,
  request_password_reset, confirm_password_reset, refresh_token, revoke_token, accepts, endpoint_of,
  token_of,
}
use buildos_auth_service.App.Answer.{
  Answer, Body, Framework, alive, ready, registered, logged_in, identity, token_revoked,
  availability, refreshed, password_changed, reset_requested, reset_confirmed, answered,
  me_response, refresh_response, change_response, revoke_response, request_response,
  confirm_response,
}

-- What a process of the service runs with: the libraries, the framework and the remote services.
pub record Deployment : Type 0 where
  pub external : External
  pub framework : Framework
  pub wire : Wire
  pub users : UserDirectory
  pub create_session : CreateSession
  pub surroundings : Surroundings

-- The deployment while no other session is at work.
abbrev pub deployment :
    External → Framework → Wire → UserDirectory → CreateSession → CreateUser → Deployment
deployment x framework wire users create_session create_user = record {
  external = x;
  framework = framework;
  wire = wire;
  users = users;
  create_session = create_session;
  surroundings = undisturbed create_user;
}

-- The response of an endpoint with a status code for success, and the world after it.
abbrev pub answer : {A : Type 0} → Framework → ℕ → (A → Body) → Action A → World → Answer × World
answer f success body endpoint w = let (r, w') = endpoint w in (answered f success body r, w')

-- The readiness probe sets the status code itself.
abbrev pub readiness_answer : Framework → Result ReadinessResponse → Answer
readiness_answer f (ok r) = record { status_code = r.status_code; body = ready r }
readiness_answer f (err e) = f.unhandled e

-- A password reset request, by the identifier that its schema makes of the one that was sent.
abbrev pub run_request : Deployment → Option String → Option String → World → Answer × World
run_request d ip_address none w = (d.framework.unprocessable, w)
run_request d ip_address (some identifier) w =
    answer d.framework request_password_reset_route.status_code
      (λ r. reset_requested (request_response r))
      (PasswordApi.request_password_reset d.external d.users identifier ip_address) w

-- The endpoint that is called.
unfoldable pub run : Deployment → Call → World → Answer × World
unfolding answered AuthApi.login AuthApi.me AuthApi.logout RegisterApi.register
    RegisterApi.check_availability TokenApi.refresh_token TokenApi.revoke_token
    PasswordApi.change_password PasswordApi.request_password_reset
    PasswordApi.confirm_password_reset HealthApi.health HealthApi.readiness password_reset_request
run d health w =
    let r = HealthApi.health d.external in
    (record { status_code = r.status_code; body = alive r }, w)
run d readiness w = (readiness_answer d.framework (HealthApi.readiness d.external d.wire), w)
run d (register key payload ip_address user_agent) w =
    answer d.framework register_route.status_code registered
      (RegisterApi.register d.external d.surroundings key payload ip_address user_agent) w
run d (login payload ip_address user_agent) w =
    answer d.framework login_route.status_code logged_in
      (AuthApi.login d.external d.users d.create_session payload ip_address user_agent) w
run d (me token) w =
    answer d.framework me_route.status_code (λ c. identity (me_response c))
      (AuthApi.me d.external token) w
run d (logout token ip_address user_agent) w =
    answer d.framework logout_route.status_code (λ r. token_revoked (revoke_response r))
      (AuthApi.logout d.external token ip_address user_agent) w
run d (check_availability email username) w =
    answer d.framework check_availability_route.status_code availability
      (RegisterApi.check_availability d.users email username) w
run d (change_password token current_password new_password ip_address user_agent) w =
    answer d.framework change_password_route.status_code (λ r. password_changed (change_response r))
      (PasswordApi.change_password d.external token current_password new_password ip_address
        user_agent)
      w
run d (request_password_reset identifier ip_address) w =
    run_request d ip_address (password_reset_request identifier) w
run d (confirm_password_reset reset_token new_password ip_address user_agent) w =
    answer d.framework confirm_password_reset_route.status_code
      (λ r. reset_confirmed (confirm_response r))
      (PasswordApi.confirm_password_reset d.external reset_token new_password ip_address user_agent)
      w
run d (refresh_token token ip_address user_agent) w =
    answer d.framework refresh_token_route.status_code (λ pair. refreshed (refresh_response pair))
      (TokenApi.refresh_token d.external token ip_address user_agent) w
run d (revoke_token token ip_address user_agent) w =
    answer d.framework revoke_token_route.status_code (λ r. token_revoked (revoke_response r))
      (TokenApi.revoke_token d.external token ip_address user_agent) w

-- A request that its schema refuses. The dependencies of the endpoint raise before that: where the
-- current user is one, the access token is looked at first.
abbrev pub refuse : Deployment → Option String → World → Answer × World
refuse d none w = (d.framework.unprocessable, w)
refuse d (some token) w =
    let (r, w') = get_current_user_context d.external token w in
    elim r [
      | ok current_user ↦ (d.framework.unprocessable, w')
      | err e ↦ (answered d.framework 200 (λ c. identity (me_response c)) (err e), w')
    ]

-- A call, where the limiter says whether the client is over the rate of an endpoint that has one.
unfoldable pub serve : Deployment → (over_rate : Bool) → Call → World → Answer × World
unfolding accepts run answered get_current_user_context
serve d over_rate call w =
    if not (accepts call)
    then refuse d (token_of call) w
    else if is_found ((route_of (endpoint_of call)).rate) && over_rate
    then (d.framework.rate_exceeded, w)
    else run d call w
