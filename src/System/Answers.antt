-- ===== src/System/Answers.antt =====
-- Which exceptions leave the login endpoint over the two HTTP clients.
use buildos_auth_service.Prelude.{
  Option-cases, ℕ, ◌≡◌, String, Bool, true, false, Option, none, some, [], ◌∷◌, arith, inl, inr,
}
use buildos_auth_service.Core.Exceptions.{
  Error, integrity_error, is_integration_error, is_authentication_error, http,
}
use buildos_auth_service.External.{External}
use buildos_auth_service.Database.{World, Result-cases, Returns-ok, ok}
use buildos_auth_service.Integrations.Http.{Wire}
use buildos_auth_service.Integrations.Retry.{Retry, IsRetry}
use buildos_auth_service.Integrations.UserService.Status.{user_directory}
use buildos_auth_service.Integrations.UserService.Errors.{
  RaisesOnly, user_directory-errors, create_session-errors,
}
use buildos_auth_service.Integrations.SessionService.{create_session}
use buildos_auth_service.Services.UserDirectory.{UserDirectory}
use buildos_auth_service.Services.Token.{TokenPair, issue_tokens}
use buildos_auth_service.Services.Context.{RequestContext, personal_context}
use buildos_auth_service.Services.Authentication.{AuthenticationResult, authenticate}
use buildos_auth_service.Services.Authentication.Outcome.{authenticate-admits}
use buildos_auth_service.Core.Context
use buildos_auth_service.Services.Login as LoginService
use buildos_auth_service.Api.Errors.{map_result, catching, login_error, session_error}
use buildos_auth_service.Api.Errors.Classes.{one_of, raises_bind, raises_session}
use buildos_auth_service.Api.Auth.{
  CreateSession, LoginRequest, login, login_handler, answer_login, issue_and_answer, open_session,
}

-- What a client of the login endpoint may meet beside a success: status 401 or 503, the status 500 of
-- an authentication without a user, or the refusal of a token hash that is stored already.
abbrev pub is_answer : Error → Bool
is_answer (http status_code detail) = one_of status_code (401 ∷ 503 ∷ 500 ∷ [])
is_answer integrity_error = true
is_answer _ = false

module _ (x : External) (users : UserDirectory) (payload : LoginRequest) (w : World) where
  -- The login service, once the user is known.
  login_service-known :
      (context : RequestContext) (user_id : ℕ)
      → users.resolve_identifier payload.identifier ≡ ok (some user_id)
      → RaisesOnly is_integration_error (users.get_user_status user_id)
      → RaisesOnly is_answer (
          map_result login_error
            (LoginService.login x users payload.identifier payload.password context w).0)
  unfolding LoginService.login login_error is_integration_error is_authentication_error
  login_service-known context user_id e reading =
      let (result, returned) =
        Returns-ok _ (authenticate x user_id payload.password payload.identifier context none w)
          (authenticate-admits x user_id payload.password payload.identifier context none w) in
      ground (arith, e, reading, returned)

  -- What the login service raises becomes an answer, if the directory raises IntegrationErrors only.
  login_service-errors :
      (context : RequestContext)
      → RaisesOnly is_integration_error (users.resolve_identifier payload.identifier)
      → ((user_id : ℕ) → RaisesOnly is_integration_error (users.get_user_status user_id))
      → RaisesOnly is_answer (
          map_result login_error
            (LoginService.login x users payload.identifier payload.password context w).0)
  unfolding LoginService.login login_error is_integration_error is_authentication_error
  login_service-errors context resolving reading =
      elim (Result-cases (users.resolve_identifier payload.identifier)) [
        | inl (none, e) ↦ ground (arith, e)
        | inl (some user_id, e) ↦ login_service-known context user_id e (reading user_id)
        | inr (error, e) ↦ ground (arith, e, resolving)
      ]

module _ (x : External) (create_session : CreateSession) (payload : LoginRequest) where
  issue_tokens-errors :
      (user_id : ℕ) (w : World)
      → RaisesOnly is_answer (issue_tokens x user_id Context.personal none none none w).0
  unfolding issue_tokens
  issue_tokens-errors user_id w = ground arith

  open_session-errors :
      (user_id : ℕ) (pair : TokenPair) (w : World)
      → ((user_id device_id expires_at : ℕ)
          → RaisesOnly is_integration_error (create_session user_id device_id expires_at))
      → RaisesOnly is_answer (open_session x create_session payload user_id pair w).0
  unfolding open_session session_error is_integration_error
  open_session-errors user_id pair w opening = grind (arith, opening)

  issue_and_answer-errors :
      (user_id : ℕ) (w : World)
      → ((user_id device_id expires_at : ℕ)
          → RaisesOnly is_integration_error (create_session user_id device_id expires_at))
      → RaisesOnly is_answer (issue_and_answer x create_session payload user_id w).0
  unfolding issue_and_answer
  issue_and_answer-errors user_id w opening =
      raises_bind is_answer (issue_tokens x user_id Context.personal none none none w)
        (open_session x create_session payload user_id) (issue_tokens-errors user_id w)
        (λ pair w'. open_session-errors user_id pair w' opening)

  answer_login-errors :
      (authentication : AuthenticationResult) (w : World)
      → ((user_id device_id expires_at : ℕ)
          → RaisesOnly is_integration_error (create_session user_id device_id expires_at))
      → RaisesOnly is_answer (answer_login x create_session payload authentication w).0
  unfolding answer_login
  answer_login-errors authentication w opening = elim (Option-cases authentication.user_id) [
    | inl missing ↦ ground (arith, missing)
    | inr (user_id, found) ↦ ground (arith, found, issue_and_answer-errors user_id w opening)
  ]

-- Over the two HTTP clients, with the documented behaviour of the retry and whatever the services
-- answer, a login request returns or is refused with status 401, 503 or 500: no other exception
-- leaves the endpoint, but the integrity error of a token hash that is stored already.
pub login-answers :
    (x : External) (wire : Wire) (retry : Retry) (law : IsRetry retry) (payload : LoginRequest)
    (ip_address user_agent : Option String) (w : World)
    → RaisesOnly is_answer
        (login x
          (user_directory x wire retry)
          (create_session x wire)
          payload
          ip_address
          user_agent
          w).0
unfolding login login_handler
login-answers x wire retry law payload ip_address user_agent w =
    let users = user_directory x wire retry in
    let context = personal_context ip_address user_agent in
    raises_session is_answer
      (login_handler x users (create_session x wire) payload ip_address user_agent) w
      (raises_bind is_answer
        (catching login_error
          (LoginService.login x users payload.identifier payload.password context) w)
        (answer_login x (create_session x wire) payload)
        (login_service-errors x users payload w context
          (user_directory-errors x wire retry law payload.identifier 0).0
          (λ user_id. (user_directory-errors x wire retry law payload.identifier user_id).1))
        (λ authentication w'.
          answer_login-errors x (create_session x wire) payload authentication w'
            (create_session-errors x wire)))
