-- ===== src/Tests/Retries.antt =====
-- A retry that behaves as documented, and two wires.
use native.Mathlib.Numerals.{unary_clauses}
use buildos_auth_service.Prelude.{ℕ, zero, suc, ◌+◌, ◌<◌, ◌≡◌, refl, String, true, some, arith}
use buildos_auth_service.Core.Exceptions.{Error}
use buildos_auth_service.Database.{Result, err}
use buildos_auth_service.Integrations.Json.{bool, str, obj, Fields, end, field}
use buildos_auth_service.Integrations.Http.{
  HttpRequest, HttpResponse, Outcome, responded, transport_error, Wire,
}
use buildos_auth_service.Integrations.Retry.{
  Attempt, final, retryable, IsRetryable, retried, Retry, IsRetry,
}

-- The attempts one by one, with the text of the last failure.
unfoldable pub attempts_from :
    (A : Type 0) → ℕ → String → (String → Error) → (ℕ → Attempt A) → Result A
attempts_from A zero last callback attempt = err (callback last)
attempts_from A (suc n) last callback attempt = elim (attempt 0) [
  | final r ↦ r
  | retryable message ↦ attempts_from A n message callback (λ k. attempt (suc k))
]

abbrev pub repeated : Retry
repeated A n callback attempt = attempts_from A n "" callback attempt

message_of :
    {A : Type 0} (a : Attempt A) → IsRetryable a → (message : String) × (a ≡ retryable message)
message_of _ (retried message) = (message, refl)

attempts_from-final :
    (A : Type 0) (n k : ℕ) (last : String) (callback : String → Error) (attempt : ℕ → Attempt A)
    (r : Result A)
    → k < n
    → ((j : ℕ) → j < k → IsRetryable (attempt j))
    → attempt k ≡ final r
    → attempts_from A n last callback attempt ≡ r
unfolding attempts_from
attempts_from-final A zero k last callback attempt r below earlier e = absurd (omega arith)
attempts_from-final A (suc n) zero last callback attempt r below earlier e =
    rw (e, attempts_from) refl
attempts_from-final A (suc n) (suc k) last callback attempt r below earlier e =
    let (message, e0) = message_of (attempt 0) (earlier 0 (omega arith)) in
    rw (e0, attempts_from)
      (attempts_from-final A n k message callback (λ j. attempt (suc j)) r (omega arith)
        (λ j h. earlier (suc j) (omega arith)) e)

attempts_from-exhausted :
    (A : Type 0) (n : ℕ) (last : String) (callback : String → Error) (attempt : ℕ → Attempt A)
    (message : String)
    → ((j : ℕ) → j < n → IsRetryable (attempt j))
    → attempt n ≡ retryable message
    → attempts_from A (suc n) last callback attempt ≡ err (callback message)
unfolding attempts_from
attempts_from-exhausted A zero last callback attempt message earlier e = rw (e, attempts_from) refl
attempts_from-exhausted A (suc n) last callback attempt message earlier e =
    let (m0, e0) = message_of (attempt 0) (earlier 0 (omega arith)) in
    rw (e0, attempts_from)
      (attempts_from-exhausted A n m0 callback (λ j. attempt (suc j)) message
        (λ j h. earlier (suc j) (omega arith)) e)

exhausted :
    (A : Type 0) (n : ℕ) (callback : String → Error) (attempt : ℕ → Attempt A) (message : String)
    → ((j : ℕ) → j < n → IsRetryable (attempt j))
    → attempt n ≡ retryable message
    → repeated A (n + 1) callback attempt ≡ err (callback message)
exhausted A n callback attempt message earlier e =
    simp unary_clauses (attempts_from-exhausted A n "" callback attempt message earlier e)

pub repeated-IsRetry : IsRetry repeated
repeated-IsRetry = record {
  retry-final = λ A n k callback attempt r below earlier e.
      attempts_from-final A n k "" callback attempt r below earlier e;
  retry-exhausted =
      λ A n callback attempt message earlier e. exhausted A n callback attempt message earlier e;
}

-- A wire that answers every request with a body.
abbrev pub answering : (HttpRequest → ℕ → Outcome) → Wire
answering send = record { send = send; json_text = λ j. "json"; code_text = λ n. "code" }

abbrev pub response : ℕ → Fields → HttpResponse
response status_code body = record { status_code = status_code; json = some (obj body); text = "" }

-- The User Service knows user 7; its first answer is lost.
unfoldable pub user_seven : HttpRequest → ℕ → Outcome
user_seven request zero = transport_error "timeout"
user_seven request (suc k) = responded (
    response 200
      (field "success" (bool true) (field "data" (obj (field "user_id" (str "iiiiiii") end)) end)))

-- Every answer is a server error.
abbrev pub down : HttpRequest → ℕ → Outcome
down request k = responded (response 503 end)
