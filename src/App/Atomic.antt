-- ===== src/App/Atomic.antt =====
-- What a call that is not answered with success leaves in the tables.
use buildos_auth_service.Prelude.{
  ℕ, ◌<◌, ◌≤◌, ◌≡◌, refl, sym, subst, String, Bool, ◌&&◌, is_found, arith, Bool-cases, Option, none,
  some, inl, inr,
}
use buildos_auth_service.Database.{World, Action, Result-cases}
use buildos_auth_service.Schemas.Password.{password_reset_request}
use buildos_auth_service.Api.Dependencies.Purity.{get_current_user_context-world}
use buildos_auth_service.Api.Auth as AuthApi
use buildos_auth_service.Api.Auth.Rollback.{SameTables}
use buildos_auth_service.Api.Register as RegisterApi
use buildos_auth_service.Api.Token as TokenApi
use buildos_auth_service.Api.Password as PasswordApi
use buildos_auth_service.App.Sessions.{
  RollsBack, logout-RollsBack, refresh_token-RollsBack, revoke_token-RollsBack,
  change_password-RollsBack, request_password_reset-RollsBack, confirm_password_reset-RollsBack,
  register-RollsBack, login-RollsBack,
}
use buildos_auth_service.App.Routes.{route_of}
use buildos_auth_service.Integrations.Http.{Wire}
use buildos_auth_service.External.{External}
use buildos_auth_service.Services.UserDirectory.{UserDirectory}
use buildos_auth_service.Api.Auth.{CreateSession}
use buildos_auth_service.System.{CreateUser}
use buildos_auth_service.App.Call.{
  Call, health, readiness, register, login, me, logout, check_availability, change_password,
  request_password_reset, confirm_password_reset, refresh_token, revoke_token, accepts, endpoint_of,
  token_of,
}
use buildos_auth_service.App.Answer.{
  Body, Framework, answered, registered, logged_in, token_revoked, refreshed, password_changed,
  reset_requested, reset_confirmed, refresh_response, change_response, revoke_response,
  request_response, confirm_response,
}
use buildos_auth_service.App.Serve.{deployment, Deployment, answer, run, run_request, refuse, serve}

same : (w w' : World) → w' ≡ w → SameTables w w'
same w w' e = subst (SameTables w) (sym e) (record {
  credentials = refl;
  login_attempts = refl;
  auth_events = refl;
  security_events = refl;
  refresh_tokens = refl;
  password_resets = refl;
})

-- The answer is a refusal only if the endpoint raised.
answer-SameTables :
    {A : Type 0} (f : Framework) (success : ℕ) (body : A → Body) (endpoint : Action A) (w : World)
    → success < 400
    → RollsBack endpoint w
    → 400 ≤ (answer f success body endpoint w).0.status_code
    → SameTables w (answer f success body endpoint w).1
unfolding answered RollsBack
answer-SameTables f success body endpoint w below back refused =
    elim (Result-cases (endpoint w).0) [
      | inl (a, e) ↦ absurd (ground (arith, below, refused, e))
      | inr (error, e) ↦ back error e
    ]

pub me-world : (d : Deployment) (token : String) (w : World) → (AuthApi.me d.external token w).1 ≡ w
unfolding AuthApi.me
me-world d token w = ground arith

pub check_availability-world :
    (d : Deployment) (email username : Option String) (w : World)
    → (RegisterApi.check_availability d.users email username w).1 ≡ w
unfolding RegisterApi.check_availability
check_availability-world d email username w = ground arith

pub refuse-world : (d : Deployment) (token : Option String) (w : World) → (refuse d token w).1 ≡ w
refuse-world d none w = refl
refuse-world d (some token) w = ground (arith, get_current_user_context-world d.external token w)

requested-SameTables :
    (d : Deployment) (ip_address : Option String) (w : World) (identifier : Option String)
    → 400 ≤ (run_request d ip_address identifier w).0.status_code
    → SameTables w (run_request d ip_address identifier w).1
requested-SameTables d ip_address w none refused = same w w refl
requested-SameTables d ip_address w (some identifier) refused =
    answer-SameTables d.framework 200 (λ r. reset_requested (request_response r))
      (PasswordApi.request_password_reset d.external d.users identifier ip_address) w (omega arith)
      (request_password_reset-RollsBack d ip_address none w identifier) refused

run-SameTables :
    (d : Deployment) (call : Call) (w : World)
    → 400 ≤ (run d call w).0.status_code
    → SameTables w (run d call w).1
unfolding run
run-SameTables d health w refused = same w w refl
run-SameTables d readiness w refused = same w w refl
run-SameTables d (register key payload ip_address user_agent) w refused =
    answer-SameTables d.framework 201 registered
      (RegisterApi.register d.external d.surroundings key payload ip_address user_agent) w
      (omega arith) (register-RollsBack d ip_address user_agent w key payload) refused
run-SameTables d (login payload ip_address user_agent) w refused =
    answer-SameTables d.framework 200 logged_in
      (AuthApi.login d.external d.users d.create_session payload ip_address user_agent) w
      (omega arith) (login-RollsBack d ip_address user_agent w payload) refused
run-SameTables d (me token) w refused =
    same w (AuthApi.me d.external token w).1 (me-world d token w)
run-SameTables d (logout token ip_address user_agent) w refused =
    answer-SameTables d.framework 200 (λ r. token_revoked (revoke_response r))
      (AuthApi.logout d.external token ip_address user_agent) w (omega arith)
      (logout-RollsBack d ip_address user_agent w token) refused
run-SameTables d (check_availability email username) w refused =
    same w (RegisterApi.check_availability d.users email username w).1
      (check_availability-world d email username w)
run-SameTables d (change_password token current_password new_password ip_address user_agent) w
      refused =
    answer-SameTables d.framework 200 (λ r. password_changed (change_response r))
      (PasswordApi.change_password d.external token current_password new_password ip_address
        user_agent)
      w (omega arith)
      (change_password-RollsBack d ip_address user_agent w token current_password new_password)
      refused
run-SameTables d (request_password_reset identifier ip_address) w refused =
    requested-SameTables d ip_address w (password_reset_request identifier) refused
run-SameTables d (confirm_password_reset reset_token new_password ip_address user_agent) w refused =
    answer-SameTables d.framework 200 (λ r. reset_confirmed (confirm_response r))
      (PasswordApi.confirm_password_reset d.external reset_token new_password ip_address user_agent)
      w (omega arith)
      (confirm_password_reset-RollsBack d ip_address user_agent w reset_token new_password) refused
run-SameTables d (refresh_token token ip_address user_agent) w refused =
    answer-SameTables d.framework 200 (λ pair. refreshed (refresh_response pair))
      (TokenApi.refresh_token d.external token ip_address user_agent) w (omega arith)
      (refresh_token-RollsBack d ip_address user_agent w token) refused
run-SameTables d (revoke_token token ip_address user_agent) w refused =
    answer-SameTables d.framework 200 (λ r. token_revoked (revoke_response r))
      (TokenApi.revoke_token d.external token ip_address user_agent) w (omega arith)
      (revoke_token-RollsBack d ip_address user_agent w token) refused

refused-SameTables :
    (d : Deployment) (over_rate : Bool) (call : Call) (w : World)
    → 400 ≤ (serve d over_rate call w).0.status_code
    → SameTables w (serve d over_rate call w).1
unfolding serve
refused-SameTables d over_rate call w refused = elim (Bool-cases (accepts call)) [
  | inl accepted ↦ elim (Bool-cases (is_found ((route_of (endpoint_of call)).rate) && over_rate)) [
    | inl over ↦ rw (accepted, over) (same w w refl)
    | inr under ↦ rw (accepted, under) (run-SameTables d call w (rw (accepted, under) at refused))
  ]
  | inr malformed ↦
      rw malformed (same w (refuse d (token_of call) w).1 (refuse-world d (token_of call) w))
]

-- A call that is not answered with success changes nothing: while no other session is at work, and
-- whatever the remote services and the limiter do, if the status of the answer is 400 or more, every
-- table is left as it was.
pub serve-SameTables :
    (x : External) (framework : Framework) (wire : Wire) (users : UserDirectory)
    (create_session : CreateSession) (create_user : CreateUser) (over_rate : Bool) (call : Call)
    (w : World)
    → 400
      ≤ (serve
          (deployment x framework wire users create_session create_user)
          over_rate
          call
          w).0.status_code
    → SameTables w
        (serve (deployment x framework wire users create_session create_user) over_rate call w).1
serve-SameTables x framework wire users create_session create_user over_rate call w refused =
    refused-SameTables (deployment x framework wire users create_session create_user) over_rate call
      w refused
