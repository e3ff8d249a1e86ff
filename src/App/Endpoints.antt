-- ===== src/App/Endpoints.antt =====
-- The status codes of the endpoints' own answers.
use buildos_auth_service.Prelude.{
  ℕ, ◌≡◌, refl, ap, String, Bool, true, ◌&&◌, Option, none, some, List, [], ◌∷◌, arith,
  if◌then◌else◌,
}
use buildos_auth_service.Core.Exceptions.{Error}
use buildos_auth_service.External.{External}
use buildos_auth_service.Database.{World, Result, ok, err}
use buildos_auth_service.Integrations.Http.{Wire}
use buildos_auth_service.Integrations.Retry.{Retry, IsRetry}
use buildos_auth_service.Integrations.UserService.Errors.{
  RaisesOnly, user_directory-errors, create_user-errors,
}
use buildos_auth_service.Integrations.UserService.Status.{user_directory}
use buildos_auth_service.Integrations.UserService.Create.{create_user}
use buildos_auth_service.Integrations.SessionService.{create_session}
use buildos_auth_service.Schemas.Limits.{has_length_if}
use buildos_auth_service.Schemas.Password.{password_reset_request}
use buildos_auth_service.Api.Dependencies.{get_current_user_context}
use buildos_auth_service.Api.Errors.Classes.{one_of, raises_sub}
use buildos_auth_service.Api.Auth as AuthApi
use buildos_auth_service.Api.Register as RegisterApi
use buildos_auth_service.Api.Token as TokenApi
use buildos_auth_service.Api.Password as PasswordApi
use buildos_auth_service.Api.Health as HealthApi
use buildos_auth_service.Api.Health.{ReadinessResponse}
use buildos_auth_service.System.{undisturbed}
use buildos_auth_service.System.Answers.{is_answer, login-answers}
use buildos_auth_service.App.Routes as Routes
use buildos_auth_service.App.Routes.{Endpoint}
use buildos_auth_service.App.Call.{
  Call, health, readiness, register, login, me, logout, check_availability, change_password,
  request_password_reset, confirm_password_reset, refresh_token, revoke_token, endpoint_of,
}
use buildos_auth_service.App.Answer.{
  Body, Framework, IsFramework, answered, registered, logged_in, token_revoked, refreshed,
  availability, identity, me_response, password_changed, reset_requested, reset_confirmed,
  refresh_response, change_response, revoke_response, request_response, confirm_response,
}
use buildos_auth_service.App.Serve.{deployment, Deployment, run, run_request, readiness_answer}
use buildos_auth_service.App.Statuses.{
  status_of, among, get_current_user_context-among, refresh_token-among, revoke_token-among,
  logout-among, change_password-among, confirm_password_reset-among,
}
use buildos_auth_service.App.Remote.{
  RaisesIntegration, register_codes, register-among, check_availability-among,
  request_password_reset-among,
}

-- The specification: the status codes by endpoint.
abbrev pub status_codes : Endpoint → List ℕ
status_codes Routes.health = 200 ∷ []
status_codes Routes.readiness = 200 ∷ 503 ∷ 500 ∷ []
status_codes Routes.register = 201 ∷ 400 ∷ 409 ∷ 422 ∷ 429 ∷ 503 ∷ 500 ∷ []
status_codes Routes.login = 200 ∷ 401 ∷ 422 ∷ 429 ∷ 503 ∷ 500 ∷ []
status_codes Routes.me = 200 ∷ 401 ∷ []
status_codes Routes.logout = 200 ∷ 401 ∷ 422 ∷ []
status_codes Routes.check_availability = 200 ∷ 400 ∷ 429 ∷ 503 ∷ []
status_codes Routes.change_password = 200 ∷ 401 ∷ 422 ∷ []
status_codes Routes.request_password_reset = 200 ∷ 422 ∷ 500 ∷ []
status_codes Routes.confirm_password_reset = 200 ∷ 400 ∷ 422 ∷ []
status_codes Routes.refresh_token = 200 ∷ 401 ∷ 422 ∷ 500 ∷ []
status_codes Routes.revoke_token = 200 ∷ 401 ∷ 422 ∷ []
status_codes Routes.update_user_status = []

-- The address of the client and the User-Agent header fit the columns that they are stored in, which
-- app/models declares as String(45) and String(1000).
abbrev pub texts_fit : Option String → Option String → Bool
texts_fit ip_address user_agent = has_length_if 0 45 ip_address && has_length_if 0 1000 user_agent

abbrev pub stored_texts_fit : Call → Bool
stored_texts_fit (register key payload ip_address user_agent) = texts_fit ip_address user_agent
stored_texts_fit (login payload ip_address user_agent) = texts_fit ip_address user_agent
stored_texts_fit (logout token ip_address user_agent) = texts_fit ip_address user_agent
stored_texts_fit (change_password token current_password new_password ip_address user_agent) =
    texts_fit ip_address user_agent
stored_texts_fit (request_password_reset identifier ip_address) = texts_fit ip_address none
stored_texts_fit (confirm_password_reset reset_token new_password ip_address user_agent) =
    texts_fit ip_address user_agent
stored_texts_fit (refresh_token token ip_address user_agent) = texts_fit ip_address user_agent
stored_texts_fit (revoke_token token ip_address user_agent) = texts_fit ip_address user_agent
stored_texts_fit _ = true

-- The status codes of a call: those of its endpoint, and 500 where PostgreSQL refuses a text that is
-- longer than its column.
abbrev pub codes_of : Call → List ℕ
codes_of call =
    if stored_texts_fit call
    then status_codes (endpoint_of call)
    else 500 ∷ status_codes (endpoint_of call)

raised-status :
    {A : Type 0} (f : Framework) (law : IsFramework f) (success : ℕ) (body : A → Body) (e : Error)
    → (answered f success body (err e)).status_code ≡ status_of e
unfolding answered
raised-status f law success body e = ground (arith, law.unhandled e)

-- An endpoint's answer is the success or one of the codes of its exceptions.
pub answer-one_of :
    {A : Type 0} (f : Framework) (law : IsFramework f) (success : ℕ) (body : A → Body)
    (codes : List ℕ) (r : Result A)
    → RaisesOnly (among codes) r
    → one_of (answered f success body r).status_code (success ∷ codes) ≡ true
unfolding answered
answer-one_of f law success body codes (ok a) h = ground arith
answer-one_of f law success body codes (err e) h =
    ground (arith, h, ap (λ n. one_of n codes) (raised-status f law success body e))

is_answer-among : (e : Error) → is_answer e ≡ true → among (401 ∷ 503 ∷ 500 ∷ []) e ≡ true
is_answer-among e h = ground (arith, h)

-- The deployment over the two HTTP clients, while no other session is at work.
abbrev pub over_clients : External → Framework → Wire → Retry → Deployment
over_clients x framework wire retry =
    deployment x framework wire (user_directory x wire retry) (create_session x wire)
      (create_user x wire retry)

module _ (x : External) (framework : Framework) (law : IsFramework framework) (wire : Wire)
    (retry : Retry) (retrying : IsRetry retry) where
  directory-RaisesIntegration : RaisesIntegration (user_directory x wire retry)
  directory-RaisesIntegration = record {
    resolving = λ identifier. (user_directory-errors x wire retry retrying identifier 0).0;
    reading = λ user_id. (user_directory-errors x wire retry retrying "" user_id).1;
  }

  readiness-status :
      (r : Result ReadinessResponse)
      → HealthApi.readiness x wire ≡ r
      → one_of (readiness_answer framework r).status_code (200 ∷ 503 ∷ 500 ∷ []) ≡ true
  unfolding HealthApi.readiness
  readiness-status (ok r) e = ground (arith, e)
  readiness-status (err error) e = ground (arith, law.unhandled error)

  requested-one_of :
      (ip_address identifier : Option String) (w : World)
      → one_of
          (run_request (over_clients x framework wire retry) ip_address identifier w).0.status_code
          (200 ∷ 422 ∷ 500 ∷ [])
        ≡ true
  requested-one_of ip_address none w = ground (arith, law.unprocessable)
  requested-one_of ip_address (some identifier) w = ground (
    arith,
    answer-one_of framework law 200 (λ r. reset_requested (request_response r)) (500 ∷ [])
        (PasswordApi.request_password_reset x (user_directory x wire retry) identifier ip_address
          w).0
        (request_password_reset-among (user_directory x wire retry) directory-RaisesIntegration x
          identifier ip_address w),
  )

  pub run-one_of :
      (call : Call) (w : World)
      → one_of
          (run (over_clients x framework wire retry) call w).0.status_code
          (status_codes (endpoint_of call))
        ≡ true
  unfolding run HealthApi.health AuthApi.me
  run-one_of health w = refl
  run-one_of readiness w = readiness-status (HealthApi.readiness x wire) refl
  run-one_of (register key payload ip_address user_agent) w = ground (
    arith,
    answer-one_of framework law 201 registered (register_codes)
        (RegisterApi.register x (undisturbed (create_user x wire retry)) key payload ip_address
          user_agent w).0
        (register-among x (create_user x wire retry) key payload ip_address user_agent w
          (λ key'. create_user-errors x wire retry retrying key' payload.fields)),
  )
  run-one_of (login payload ip_address user_agent) w = ground (
    arith,
    answer-one_of framework law 200 logged_in (401 ∷ 503 ∷ 500 ∷ [])
        (AuthApi.login x (user_directory x wire retry) (create_session x wire) payload ip_address
          user_agent w).0
        (raises_sub is_answer (among (401 ∷ 503 ∷ 500 ∷ [])) _
          (login-answers x wire retry retrying payload ip_address user_agent w) is_answer-among),
  )
  run-one_of (me token) w = ground (
    arith,
    answer-one_of framework law 200 (λ c. identity (me_response c)) (401 ∷ [])
        (get_current_user_context x token w).0 (get_current_user_context-among x token w),
  )
  run-one_of (logout token ip_address user_agent) w = ground (
    arith,
    answer-one_of framework law 200 (λ r. token_revoked (revoke_response r)) (401 ∷ [])
        (AuthApi.logout x token ip_address user_agent w).0
        (logout-among x token ip_address user_agent w),
  )
  run-one_of (check_availability email username) w = ground (
    arith,
    answer-one_of framework law 200 availability (400 ∷ 503 ∷ [])
        (RegisterApi.check_availability (user_directory x wire retry) email username w).0
        (check_availability-among (user_directory x wire retry) directory-RaisesIntegration email
          username w),
  )
  run-one_of (change_password token current_password new_password ip_address user_agent) w =
      ground (
        arith,
        answer-one_of framework law 200 (λ r. password_changed (change_response r)) (401 ∷ [])
            (PasswordApi.change_password x token current_password new_password ip_address user_agent
              w).0
            (change_password-among x token current_password new_password ip_address user_agent w),
      )
  run-one_of (request_password_reset identifier ip_address) w =
      requested-one_of ip_address (password_reset_request identifier) w
  run-one_of (confirm_password_reset reset_token new_password ip_address user_agent) w = ground (
    arith,
    answer-one_of framework law 200 (λ r. reset_confirmed (confirm_response r)) (400 ∷ [])
        (PasswordApi.confirm_password_reset x reset_token new_password ip_address user_agent w).0
        (confirm_password_reset-among x reset_token new_password ip_address user_agent w),
  )
  run-one_of (refresh_token token ip_address user_agent) w = ground (
    arith,
    answer-one_of framework law 200 (λ pair. refreshed (refresh_response pair)) (401 ∷ 500 ∷ [])
        (TokenApi.refresh_token x token ip_address user_agent w).0
        (refresh_token-among x token ip_address user_agent w),
  )
  run-one_of (revoke_token token ip_address user_agent) w = ground (
    arith,
    answer-one_of framework law 200 (λ r. token_revoked (revoke_response r)) (401 ∷ [])
        (TokenApi.revoke_token x token ip_address user_agent w).0
        (revoke_token-among x token ip_address user_agent w),
  )
