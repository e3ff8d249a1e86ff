-- ===== src/Integrations/Retry.antt =====
-- Tenacity's `retry` as the User Service client uses it, a parameter with its documented behaviour:
-- attempts follow one another until one returns or raises an exception that is not retried, or the
-- attempts are used up, when the callback decides.
pub mod Rules
use buildos_auth_service.Prelude.{ℕ, ◌+◌, ◌<◌, ◌≡◌, String}
use buildos_auth_service.Core.Exceptions.{Error}
use buildos_auth_service.Database.{Result, err}

-- How an attempt ends: with a result or an exception that is not retried, or with a retryable
-- exception (httpx.HTTPError or UserServiceRetryableError) and its text.
pub data Attempt (A : Type 0) : Type 0 where
  final : Result A → Attempt A
  retryable : String → Attempt A

-- The attempt ends in a retryable exception.
pub data IsRetryable {A : Type 0} : Attempt A → Type 0 where
  retried : (message : String) → IsRetryable (retryable message)

-- `retry(stop=stop_after_attempt(n), retry_error_callback=callback)`, on the attempts by number.
abbrev pub Retry : Type 1
Retry = (A : Type 0) → ℕ → (String → Error) → (ℕ → Attempt A) → Result A

pub record IsRetry (retry : Retry) : Type 1 where
  pub retry-final :
      (A : Type 0) (n k : ℕ) (callback : String → Error) (attempt : ℕ → Attempt A) (r : Result A)
      → k < n
      → ((j : ℕ) → j < k → IsRetryable (attempt j))
      → attempt k ≡ final r
      → retry A n callback attempt ≡ r
  pub retry-exhausted :
      (A : Type 0) (n : ℕ) (callback : String → Error) (attempt : ℕ → Attempt A) (message : String)
      → ((j : ℕ) → j < n → IsRetryable (attempt j))
      → attempt n ≡ retryable message
      → retry A (n + 1) callback attempt ≡ err (callback message)
