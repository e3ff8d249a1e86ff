-- ===== src/System/Outage.antt =====
-- The endpoints over the two HTTP clients: what a request is answered while the User Service fails,
-- and which exceptions leave the login endpoint.
use Prim.Native.String.{◌++◌ as text_append}
use buildos_auth_service.Prelude.{
  ℕ, ◌<◌, ◌≡◌, refl, String, Bool, true, false, Option, List, [], ◌∷◌, arith, Bool-cases, inl, inr,
  ◌⊎◌, strip, is_empty,
}
use buildos_auth_service.Core.Exceptions.{integration, http}
use buildos_auth_service.External.{External}
use buildos_auth_service.Database.{World, Result, ok, err, with_session}
use buildos_auth_service.Integrations.Http.{
  HttpRequest, HttpResponse, Outcome, responded, transport_error, Wire,
}
use buildos_auth_service.Integrations.Retry.{final, Retry, IsRetry}
use buildos_auth_service.Integrations.Retry.Rules.{retry_rule}
use buildos_auth_service.Integrations.Headers.{headers, bearer}
use buildos_auth_service.Integrations.Answer.{attempt_of, is_retryable_code}
use buildos_auth_service.Integrations.UserService.{
  user_headers, send_with, resolve_request, resolve_identifier, resolve_attempt, resolve_answer,
  raise_integration_error,
}
use buildos_auth_service.Integrations.UserService.Status.{user_directory}
use buildos_auth_service.Integrations.SessionService.{create_session}
use buildos_auth_service.Api.Auth.{CreateSession, LoginRequest, login, login_handler}
use buildos_auth_service.Api.Auth.Rollback.{SameTables, with_session-SameTables}
use buildos_auth_service.Api.Password.{request_password_reset}

-- The outcome is a transport error, a server error or the rate limit.
abbrev pub is_failure : Outcome → Bool
is_failure (transport_error message) = true
is_failure (responded response) = is_retryable_code response.status_code

-- The first three attempts of every request fail.
abbrev pub IsDown : Wire → Type 0
IsDown wire = (request : HttpRequest) (k : ℕ) → k < 3 → is_failure (wire.send request k) ≡ true

-- The result is an IntegrationError with some message.
abbrev pub IsIntegrationFailure {ℓ} : {A : Type ℓ} → Result A → Type ℓ
IsIntegrationFailure {A} r = (message : String) × (◌≡◌ {A = Result A} r (err (integration message)))

headers-cases :
    (x : External)
    → ((message : String) × (user_headers x [] ≡ err (integration message)))
      ⊎ ((hs : List (String × String)) × (user_headers x [] ≡ ok hs))
unfolding headers
headers-cases x = elim (Bool-cases (is_empty x.settings.user_service_api_key)) [
  | inl no_key ↦ inl ("USER_SERVICE_API_KEY is not configured.", rw no_key refl)
  | inr key ↦ elim (Bool-cases (is_empty x.settings.user_service_id)) [
    | inl no_id ↦ inl ("USER_SERVICE_ID is not configured.", rw (key, no_id) refl)
    | inr id ↦ inr (
      ("Authorization", bearer x.lower x.settings.user_service_api_key)
          ∷ ("X-Service-ID", x.settings.user_service_id)
          ∷ ("Accept", "application/json")
          ∷ [],
      rw (key, id) refl,
    )
  ]
]

module _ (x : External) (wire : Wire) (down : IsDown wire) where
  send_with-down :
      {A : Type 0} (request : List (String × String) → HttpRequest)
      (answer : HttpResponse → Result A) (k : ℕ) (r : Result A)
      → k < 3
      → send_with wire request answer k (user_headers x []) ≡ final r
      → IsIntegrationFailure r
  unfolding attempt_of
  send_with-down request answer k r below ended = elim (headers-cases x) [
    | inl (message, e) ↦ (message, ground (arith, ended, e))
    | inr (hs, e) ↦ absurd (ground (arith, ended, e, down (request hs) k below))
  ]

  -- Under such an outage an identifier that is not blank is not resolved.
  resolve_identifier-down :
      (retry : Retry) (law : IsRetry retry) (identifier : String)
      → is_empty (strip identifier) ≡ false
      → IsIntegrationFailure (resolve_identifier x wire retry identifier)
  unfolding resolve_identifier resolve_attempt
  resolve_identifier-down retry law identifier given =
      retry_rule retry law (Option ℕ) raise_integration_error (resolve_attempt x wire identifier)
        IsIntegrationFailure
        (λ k r below ended.
          send_with-down (resolve_request x (strip identifier)) (resolve_answer x wire) k r below
            (rw given at ended))
        (λ message. (text_append "User Service failed after retries: " message, refl))

  -- While the first three attempts of each request to the User Service fail, and with the documented
  -- behaviour of the retry, a login request with an identifier that is not blank is answered with
  -- status 503, and every table is left as it was.
  pub login-down :
      (retry : Retry) (law : IsRetry retry) (create_session : CreateSession)
      (payload : LoginRequest) (ip_address user_agent : Option String) (w : World)
      → is_empty (strip payload.identifier) ≡ false
      → ((login x (user_directory x wire retry) create_session payload ip_address user_agent w).0
          ≡ err (http 503 "User identity service is unavailable."))
        × SameTables w
            (login x (user_directory x wire retry) create_session payload ip_address user_agent w).1
  unfolding login
  login-down retry law create_session payload ip_address user_agent w given =
      let (message, failed) = resolve_identifier-down retry law payload.identifier given in
      let handler =
        login_handler x (user_directory x wire retry) create_session payload ip_address
          user_agent in
      let answer : (with_session handler w).0
          ≡ err (http 503 "User identity service is unavailable.") =
        ground (arith, failed) in
      (
        answer,
        with_session-SameTables handler w (http 503 "User identity service is unavailable.") answer,
      )

  -- While the first three attempts of each request to the User Service fail, and with the documented
  -- behaviour of the retry, a password reset request with an identifier that is not blank ends in an
  -- IntegrationError, which the endpoint does not turn into an answer of its own.
  pub request_password_reset-down :
      (retry : Retry) (law : IsRetry retry) (identifier : String) (ip_address : Option String)
      (w : World)
      → is_empty (strip identifier) ≡ false
      → IsIntegrationFailure
          (request_password_reset x (user_directory x wire retry) identifier ip_address w).0
  unfolding request_password_reset
  request_password_reset-down retry law identifier ip_address w given =
      let (message, failed) = resolve_identifier-down retry law identifier given in
      (message, ground (arith, failed))
