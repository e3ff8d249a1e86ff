-- ===== src/Integrations/UserService/Attempts.antt =====
-- What the results of the User Service client depend on.
use mathlib.Core.Path.{fun_ext}
use buildos_auth_service.Prelude.{
  ℕ, ◌<◌, ◌≡◌, refl, ap, ◌∙◌, String, Option, none, some, List, [], arith, if◌then◌else◌,
  Bool-cases, inl, inr, strip, strip_idem, is_empty,
}
use buildos_auth_service.External.{External}
use buildos_auth_service.Database.{Result, ok, err}
use buildos_auth_service.Services.UserDirectory.{UserStatus}
use buildos_auth_service.Integrations.Json.{Fields, get, as_str, as_dict}
use buildos_auth_service.Integrations.Http.{
  HttpRequest, HttpResponse, Outcome, responded, transport_error, Wire,
}
use buildos_auth_service.Integrations.Retry.{final, Retry, IsRetry}
use buildos_auth_service.Integrations.Retry.Rules.{retry_rule, retry-three}
use buildos_auth_service.Integrations.Answer.{attempt_of, extract_data, is_success}
use buildos_auth_service.Integrations.UserService.{
  user_headers, send_with, resolve_request, resolve_identifier, resolve_attempt, resolve_answer,
  raise_integration_error,
}
use buildos_auth_service.Integrations.UserService.Status.{
  get_user_status, status_request, status_attempt, status_answer,
}

module _ (x : External) (wire : Wire) (retry : Retry) where
  resolve_attempt-strip :
      (identifier : String) (k : ℕ)
      → resolve_attempt x wire (strip identifier) k ≡ resolve_attempt x wire identifier k
  unfolding resolve_attempt
  resolve_attempt-strip identifier k = rw (strip_idem identifier) refl

  -- White space around an identifier does not matter to its resolution.
  pub resolve_identifier-strip :
      (identifier : String)
      → resolve_identifier x wire retry (strip identifier)
        ≡ resolve_identifier x wire retry identifier
  unfolding resolve_identifier
  resolve_identifier-strip identifier =
      ap (retry (Option ℕ) 3 raise_integration_error) (fun_ext (resolve_attempt-strip identifier))

-- Another wire that sends as this one does in the first three attempts.
abbrev pub AgreesInThree : Wire → (HttpRequest → ℕ → Outcome) → Type 0
AgreesInThree wire send =
    (request : HttpRequest) (k : ℕ) → k < 3 → wire.send request k ≡ send request k

module _ (x : External) (wire : Wire) (send : HttpRequest → ℕ → Outcome) where
  abbrev other : Wire
  other = record wire { send = send }

  send_with-agrees :
      {A : Type 0} (request : List (String × String) → HttpRequest)
      (answer answer' : HttpResponse → Result A) (k : ℕ) (hs : Result (List (String × String)))
      → AgreesInThree wire send
      → k < 3
      → ((response : HttpResponse) → answer response ≡ answer' response)
      → send_with wire request answer k hs ≡ send_with other request answer' k hs
  unfolding attempt_of
  send_with-agrees request answer answer' k (ok hs) same below alike =
      rw (same (request hs) k below, fun_ext alike) refl
  send_with-agrees request answer answer' k (err e) same below alike = refl

  resolve_attempt-agrees :
      (identifier : String) (k : ℕ)
      → AgreesInThree wire send
      → k < 3
      → resolve_attempt x wire identifier k ≡ resolve_attempt x other identifier k
  unfolding resolve_attempt resolve_answer
  resolve_attempt-agrees identifier k same below = elim (Bool-cases (is_empty (strip identifier))) [
    | inl blank ↦ rw blank refl
    | inr given ↦ rw given (
        send_with-agrees (resolve_request x (strip identifier)) (resolve_answer x wire)
          (resolve_answer x other) k (user_headers x []) same below (λ response. refl))
  ]

  status_attempt-agrees :
      (user_id k : ℕ)
      → AgreesInThree wire send
      → k < 3
      → status_attempt x wire user_id k ≡ status_attempt x other user_id k
  unfolding status_attempt status_answer
  status_attempt-agrees user_id k same below =
      send_with-agrees (status_request x user_id) (status_answer x wire) (status_answer x other) k
        (user_headers x []) same below (λ response. refl)

  -- With the documented behaviour of the retry, the User Service is asked at most three times: what it
  -- would answer in a fourth attempt does not change what its client resolves or reads.
  pub user_directory-three :
      (retry : Retry) (law : IsRetry retry) (identifier : String) (user_id : ℕ)
      → AgreesInThree wire send
      → (resolve_identifier x wire retry identifier ≡ resolve_identifier x other retry identifier)
        × (get_user_status x wire retry user_id ≡ get_user_status x other retry user_id)
  unfolding resolve_identifier get_user_status
  user_directory-three retry law identifier user_id same = (
    retry-three retry law (Option ℕ) raise_integration_error (resolve_attempt x wire identifier)
        (resolve_attempt x other identifier)
        (λ k below. resolve_attempt-agrees identifier k same below),
    retry-three retry law UserStatus raise_integration_error (status_attempt x wire user_id)
        (status_attempt x other user_id) (λ k below. status_attempt-agrees user_id k same below),
  )

-- An independent reading of a response that names a user: status 200, a dict as its body, in it or
-- in the data of its envelope a text `user_id`, and the text is a UUID.
abbrev pub named_in : External → Option Fields → Option ℕ
named_in x none = none
named_in x (some payload) = elim (as_str (get "user_id" payload)) [
  | none ↦ none
  | some s ↦ x.parse_uuid s
]

abbrev pub payload_of : HttpResponse → Option Fields
payload_of response = elim response.json [
  | none ↦ none
  | some body ↦ elim (as_dict body) [
    | none ↦ none
    | some payload ↦ if is_success payload then as_dict (get "data" payload) else some payload
  ]
]

-- A wire on which some attempt to resolve an identifier was answered with a user.
abbrev pub WasNamed : External → Wire → String → ℕ → Type 0
WasNamed x wire identifier user_id =
    (k : ℕ) × (k < 3)
    × (hs : List (String × String)) × (response : HttpResponse) × (wire.send
          (resolve_request x (strip identifier) hs) k
        ≡ responded response)
    × (response.status_code ≡ 200)
    × (named_in x (payload_of response) ≡ some user_id)

attempt_of-final :
    {A : Type 0} (wire : Wire) (answer : HttpResponse → Result A) (outcome : Outcome) (a : A)
    → attempt_of wire answer outcome ≡ final (ok a)
    → (response : HttpResponse) × (outcome ≡ responded response) × (answer response ≡ ok a)
unfolding attempt_of
attempt_of-final wire answer (transport_error message) a h = absurd (ground (arith, h))
attempt_of-final wire answer (responded response) a h = (response, refl, ground (arith, h))

send_with-final :
    {A : Type 0} (wire : Wire) (request : List (String × String) → HttpRequest)
    (answer : HttpResponse → Result A) (k : ℕ) (built : Result (List (String × String))) (a : A)
    → send_with wire request answer k built ≡ final (ok a)
    → (hs : List (String × String)) × (response : HttpResponse) × (wire.send (request hs) k
        ≡ responded response)
      × (answer response ≡ ok a)
send_with-final wire request answer k (ok hs) a h =
    let (response, sent, answered) = attempt_of-final wire answer (wire.send (request hs) k) a h in
    (hs, response, sent, answered)
send_with-final wire request answer k (err e) a h = absurd (ground (arith, h))

module _ (x : External) (wire : Wire) where
  resolve_answer-named :
      (response : HttpResponse) (user_id : ℕ)
      → resolve_answer x wire response ≡ ok (some user_id)
      → (response.status_code ≡ 200) × (named_in x (payload_of response) ≡ some user_id)
  unfolding resolve_answer extract_data
  resolve_answer-named response user_id h = ground (arith, h)

  resolve_attempt-named :
      (identifier : String) (k user_id : ℕ)
      → k < 3
      → resolve_attempt x wire identifier k ≡ final (ok (some user_id))
      → WasNamed x wire identifier user_id
  unfolding resolve_attempt
  resolve_attempt-named identifier k user_id below h =
      elim (Bool-cases (is_empty (strip identifier))) [
        | inl blank ↦ absurd (ground (arith, h, blank))
        | inr given ↦
            let (hs, response, sent, answered) =
              send_with-final wire (resolve_request x (strip identifier)) (resolve_answer x wire) k
                (user_headers x []) (some user_id) (rw given at h) in
            let (status, named) = resolve_answer-named response user_id answered in
            (k, below, hs, response, sent, status, named)
      ]

  -- With the documented behaviour of the retry, a user whom `resolve_identifier` returns was named by
  -- the User Service: one of the first three requests was answered with status 200 and a body that has the user's UUID.
  pub resolve_identifier-named :
      (retry : Retry) (law : IsRetry retry) (identifier : String) (user_id : ℕ)
      → resolve_identifier x wire retry identifier ≡ ok (some user_id)
      → WasNamed x wire identifier user_id
  unfolding resolve_identifier
  resolve_identifier-named retry law identifier user_id =
      retry_rule retry law (Option ℕ) raise_integration_error (resolve_attempt x wire identifier)
        (λ r. r ≡ ok (some user_id) → WasNamed x wire identifier user_id)
        (λ k r below ended e. resolve_attempt-named identifier k user_id below (ended ∙ ap final e))
        (λ message e. absurd (ground (arith, e)))
