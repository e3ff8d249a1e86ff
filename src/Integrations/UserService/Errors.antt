-- ===== src/Integrations/UserService/Errors.antt =====
-- The exceptions that the clients raise.
use buildos_auth_service.Prelude.{
  ℕ, ◌≡◌, refl, String, Bool, true, List, [], ◌∷◌, arith, Bool-cases, inl, inr, strip, is_empty,
}
use buildos_auth_service.Core.Exceptions.{
  Error, is_integration_error, user_already_exists, user_not_found,
}
use buildos_auth_service.External.{External}
use buildos_auth_service.Database.{Result, ok, err}
use buildos_auth_service.Services.Registration.{UserFields}
use buildos_auth_service.Integrations.Json.{Json, Fields, end, field}
use buildos_auth_service.Integrations.Http.{
  HttpRequest, HttpResponse, Outcome, responded, transport_error, Wire,
}
use buildos_auth_service.Integrations.Retry.{Attempt, final, retryable, Retry, IsRetry}
use buildos_auth_service.Integrations.Retry.Rules.{retry_rule}
use buildos_auth_service.Integrations.Headers.{headers}
use buildos_auth_service.Integrations.Answer.{◌>>=◌, extract_data, attempt_of, is_retryable_code}
use buildos_auth_service.Integrations.UserService.{
  user_headers, send_with, resolve_request, resolve_identifier, resolve_attempt, resolve_answer,
  raise_integration_error,
}
use buildos_auth_service.Integrations.UserService.Create.{
  create_user, create_attempt, create_answer, create_request, created_user,
}
use buildos_auth_service.Integrations.UserService.Status.{
  get_user_status, status_request, status_attempt, status_answer, user_status, parse_verification,
  parse_entries, parse_changed_at,
}
use buildos_auth_service.Integrations.SessionService.{create_session}

-- The result is a value, or an exception of the class.
abbrev pub RaisesOnly {ℓ} : {A : Type ℓ} → (Error → Bool) → Result A → Type 0
RaisesOnly p (ok a) = Unit
RaisesOnly p (err e) = p e ≡ true

-- The same for an attempt.
abbrev pub AttemptRaisesOnly : {A : Type 0} → (Error → Bool) → Attempt A → Type 0
AttemptRaisesOnly p (final r) = RaisesOnly p r
AttemptRaisesOnly p (retryable message) = Unit

of_final :
    {A : Type 0} (p : Error → Bool) (a : Attempt A) (r : Result A)
    → AttemptRaisesOnly p a
    → a ≡ final r
    → RaisesOnly p r
of_final p (final r') (ok v) h e = tt
of_final p (final r') (err x) h e = ground (arith, h, e)
of_final p (retryable message) r h e = ground (arith, e)

-- A class of exceptions that has the clients' own.
module _ {A : Type 0} (p : Error → Bool) where
  attempt_of-errors :
      (wire : Wire) (answer : HttpResponse → Result A) (outcome : Outcome)
      → ((response : HttpResponse) → RaisesOnly p (answer response))
      → AttemptRaisesOnly p (attempt_of wire answer outcome)
  unfolding attempt_of
  attempt_of-errors wire answer (transport_error message) h = tt
  attempt_of-errors wire answer (responded response) h =
      elim (Bool-cases (is_retryable_code response.status_code)) [
        | inl again ↦ rw again tt
        | inr done ↦ rw done (h response)
      ]

  send_with-errors :
      (wire : Wire) (request : List (String × String) → HttpRequest)
      (answer : HttpResponse → Result A) (k : ℕ) (hs : Result (List (String × String)))
      → RaisesOnly p hs
      → ((response : HttpResponse) → RaisesOnly p (answer response))
      → AttemptRaisesOnly p (send_with wire request answer k hs)
  send_with-errors wire request answer k (ok hs) built h =
      attempt_of-errors wire answer (wire.send (request hs) k) h
  send_with-errors wire request answer k (err e) built h = built

  retried-errors :
      (retry : Retry) (law : IsRetry retry) (attempt : ℕ → Attempt A)
      → ((message : String) → p (raise_integration_error message) ≡ true)
      → ((k : ℕ) → AttemptRaisesOnly p (attempt k))
      → RaisesOnly p (retry A 3 raise_integration_error attempt)
  retried-errors retry law attempt own each =
      retry_rule retry law A raise_integration_error attempt (RaisesOnly p)
        (λ k r below e. of_final p (attempt k) r (each k) e) own

user_headers-errors :
    (x : External) (rest : List (String × String))
    → RaisesOnly is_integration_error (user_headers x rest)
unfolding headers is_integration_error
user_headers-errors x rest = ground arith

module _ (x : External) (wire : Wire) where
  resolve_answer-errors :
      (response : HttpResponse) → RaisesOnly is_integration_error (resolve_answer x wire response)
  unfolding resolve_answer is_integration_error
  resolve_answer-errors response = ground arith

  resolve_attempt-errors :
      (identifier : String) (k : ℕ)
      → AttemptRaisesOnly is_integration_error (resolve_attempt x wire identifier k)
  unfolding resolve_attempt
  resolve_attempt-errors identifier k = elim (Bool-cases (is_empty (strip identifier))) [
    | inl blank ↦ rw blank tt
    | inr given ↦ rw given (
        send_with-errors is_integration_error wire (resolve_request x (strip identifier))
          (resolve_answer x wire) k (user_headers x []) (user_headers-errors x [])
          resolve_answer-errors)
  ]

parse_entries-errors : (entries : Fields) → RaisesOnly is_integration_error (parse_entries entries)
unfolding parse_entries is_integration_error
parse_entries-errors end = tt
parse_entries-errors (field k v rest) = ground (arith, parse_entries-errors rest)

parse_verification-errors : (v : Json) → RaisesOnly is_integration_error (parse_verification v)
unfolding parse_verification is_integration_error
parse_verification-errors (Json.obj entries) = parse_entries-errors entries
parse_verification-errors Json.null = tt
parse_verification-errors v = ground arith

parse_changed_at-errors :
    (x : External) (v : Json) → RaisesOnly is_integration_error (parse_changed_at x v)
unfolding parse_changed_at is_integration_error
parse_changed_at-errors x v = ground arith

extract_data-errors :
    (response : HttpResponse) → RaisesOnly is_integration_error (extract_data response)
unfolding extract_data is_integration_error
extract_data-errors response = ground arith

-- The class is kept by a step that raises only of it and one that does so after it.
bind-errors :
    {A B : Type 0} (p : Error → Bool) (m : Result A) (f : A → Result B)
    → RaisesOnly p m
    → ((a : A) → RaisesOnly p (f a))
    → RaisesOnly p (m >>= f)
bind-errors p (ok a) f h k = k a
bind-errors p (err e) f h k = h

module _ (x : External) (wire : Wire) where
  user_status-errors :
      (response : HttpResponse) → RaisesOnly is_integration_error (user_status x response)
  unfolding user_status is_integration_error
  user_status-errors response =
      bind-errors is_integration_error (extract_data response) _ (extract_data-errors response)
        (λ payload. grind (arith, parse_verification-errors, parse_changed_at-errors))

  status_answer-errors :
      (response : HttpResponse) → RaisesOnly is_integration_error (status_answer x wire response)
  unfolding status_answer is_integration_error
  status_answer-errors response = ground (arith, user_status-errors response)

  status_attempt-errors :
      (user_id k : ℕ) → AttemptRaisesOnly is_integration_error (status_attempt x wire user_id k)
  unfolding status_attempt
  status_attempt-errors user_id k =
      send_with-errors is_integration_error wire (status_request x user_id) (status_answer x wire) k
        (user_headers x []) (user_headers-errors x []) status_answer-errors

  -- Whatever the User Service answers, in whichever attempt, and with the documented behaviour of the
  -- retry, its client resolves an identifier and reads a status or raises an IntegrationError; nothing
  -- else leaves it.
  pub user_directory-errors :
      (retry : Retry) (law : IsRetry retry) (identifier : String) (user_id : ℕ)
      → RaisesOnly is_integration_error (resolve_identifier x wire retry identifier)
        × RaisesOnly is_integration_error (get_user_status x wire retry user_id)
  unfolding resolve_identifier get_user_status is_integration_error
  user_directory-errors retry law identifier user_id = (
    retried-errors is_integration_error retry law (resolve_attempt x wire identifier)
        (λ message. refl) (resolve_attempt-errors x wire identifier),
    retried-errors is_integration_error retry law (status_attempt x wire user_id) (λ message. refl)
        (status_attempt-errors user_id),
  )

-- What `create_user` may raise.
abbrev pub is_creation_error : Error → Bool
is_creation_error (user_already_exists m) = true
is_creation_error (user_not_found m) = true
is_creation_error e = is_integration_error e

module _ (x : External) (wire : Wire) where
  created_user-errors :
      (response : HttpResponse) → RaisesOnly is_creation_error (created_user x response)
  unfolding created_user is_integration_error extract_data
  created_user-errors response = ground arith

  create_answer-errors :
      (fields : UserFields) (response : HttpResponse)
      → RaisesOnly is_creation_error (create_answer x wire fields response)
  unfolding create_answer is_integration_error
  create_answer-errors fields response = ground (arith, created_user-errors response)

  creation_headers-errors :
      (rest : List (String × String)) → RaisesOnly is_creation_error (user_headers x rest)
  unfolding headers is_integration_error
  creation_headers-errors rest = ground arith

  create_attempt-errors :
      (idempotency_key : String) (fields : UserFields) (k : ℕ)
      → AttemptRaisesOnly is_creation_error (create_attempt x wire idempotency_key fields k)
  unfolding create_attempt is_integration_error
  create_attempt-errors idempotency_key fields k = ground (
    arith,
    send_with-errors is_creation_error wire (create_request x fields) (create_answer x wire fields)
        k
        (user_headers x
          (("Content-Type", "application/json") ∷ ("Idempotency-Key", strip idempotency_key) ∷ []))
        (creation_headers-errors
          (("Content-Type", "application/json") ∷ ("Idempotency-Key", strip idempotency_key) ∷ []))
        (create_answer-errors fields),
  )

  pub create_user-errors :
      (retry : Retry) (law : IsRetry retry) (idempotency_key : String) (fields : UserFields)
      → RaisesOnly is_creation_error (create_user x wire retry idempotency_key fields)
  unfolding create_user is_integration_error
  create_user-errors retry law idempotency_key fields =
      retried-errors is_creation_error retry law (create_attempt x wire idempotency_key fields)
        (λ message. refl) (create_attempt-errors idempotency_key fields)

  -- The Session Service's client returns or raises an IntegrationError.
  pub create_session-errors :
      (user_id device_id expires_at : ℕ)
      → RaisesOnly is_integration_error (create_session x wire user_id device_id expires_at)
  unfolding create_session is_integration_error
  create_session-errors user_id device_id expires_at = ground arith
