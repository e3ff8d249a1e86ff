-- ===== src/Integrations/Retry/Rules.antt =====
-- What holds of three attempts.
use buildos_auth_service.Prelude.{
  ℕ, zero, suc, ◌<◌, ◌≡◌, refl, sym, subst, ◌∙◌, ◌⊎◌, inl, inr, String, arith,
}
use buildos_auth_service.Core.Exceptions.{Error}
use buildos_auth_service.Database.{Result, err}
use buildos_auth_service.Integrations.Retry.{
  Attempt, final, retryable, IsRetryable, retried, Retry, IsRetry,
}

Attempt-cases :
    {A : Type 0} (a : Attempt A)
    → ((r : Result A) × (a ≡ final r)) ⊎ ((message : String) × (a ≡ retryable message))
Attempt-cases (final r) = inl (r, refl)
Attempt-cases (retryable message) = inr (message, refl)

IsRetryable-of :
    {A : Type 0} (a : Attempt A) (message : String) → a ≡ retryable message → IsRetryable a
IsRetryable-of a message e = subst IsRetryable (sym e) (retried message)

-- The attempts before the first, the second and the third one.
before_one : {A : Type 0} (attempt : ℕ → Attempt A) (j : ℕ) → j < 0 → IsRetryable (attempt j)
before_one attempt j h = absurd (omega arith)

before_two :
    {A : Type 0} (attempt : ℕ → Attempt A)
    → IsRetryable (attempt 0)
    → (j : ℕ) → j < 1
    → IsRetryable (attempt j)
before_two attempt first zero h = first
before_two attempt first (suc j) h = absurd (omega arith)

before_three :
    {A : Type 0} (attempt : ℕ → Attempt A)
    → IsRetryable (attempt 0)
    → IsRetryable (attempt 1)
    → (j : ℕ) → j < 2
    → IsRetryable (attempt j)
before_three attempt first second zero h = first
before_three attempt first second (suc zero) h = second
before_three attempt first second (suc (suc j)) h = absurd (omega arith)

-- The result of three attempts, as the behaviour says.
abbrev pub three : {A : Type 0} → (String → Error) → (first second third : Attempt A) → Result A
three callback (final r) second third = r
three callback (retryable m) (final r) third = r
three callback (retryable m) (retryable m') (final r) = r
three callback (retryable m) (retryable m') (retryable m'') = err (callback m'')

module _ (retry : Retry) (law : IsRetry retry) (A : Type 0) (callback : String → Error)
    (attempt : ℕ → Attempt A) where
  pub retry-eq-three :
      retry A 3 callback attempt ≡ three callback (attempt 0) (attempt 1) (attempt 2)
  retry-eq-three = elim (Attempt-cases (attempt 0)) [
    | inl (r, e) ↦
        law.retry-final A 3 0 callback attempt r (omega arith) (before_one attempt) e ∙ rw e refl
    | inr (m0, e0) ↦ elim (Attempt-cases (attempt 1)) [
      | inl (r, e) ↦
          law.retry-final A 3 1 callback attempt r (omega arith)
            (before_two attempt (IsRetryable-of (attempt 0) m0 e0)) e
          ∙ rw (e0, e) refl
      | inr (m1, e1) ↦
          let earlier : (j : ℕ) → j < 2 → IsRetryable (attempt j) =
            before_three attempt (IsRetryable-of (attempt 0) m0 e0)
              (IsRetryable-of (attempt 1) m1 e1) in
          elim (Attempt-cases (attempt 2)) [
            | inl (r, e) ↦
                law.retry-final A 3 2 callback attempt r (omega arith) earlier e
                ∙ rw (e0, e1, e) refl
            | inr (m2, e2) ↦
                law.retry-exhausted A 2 callback attempt m2 earlier e2 ∙ rw (e0, e1, e2) refl
          ]
    ]
  ]

  -- What holds of the result of each attempt, and of the exception after them, holds of the result.
  three_rule :
      (P : Result A → Type 0) (first second third : Attempt A)
      → ((r : Result A) → first ≡ final r → P r)
      → ((r : Result A) → second ≡ final r → P r)
      → ((r : Result A) → third ≡ final r → P r)
      → ((message : String) → P (err (callback message)))
      → P (three callback first second third)
  three_rule P (final r) second third a b c d = a r refl
  three_rule P (retryable m) (final r) third a b c d = b r refl
  three_rule P (retryable m) (retryable m') (final r) a b c d = c r refl
  three_rule P (retryable m) (retryable m') (retryable m'') a b c d = d m''

  pub retry_rule :
      (P : Result A → Type 0)
      → ((k : ℕ) (r : Result A) → k < 3 → attempt k ≡ final r → P r)
      → ((message : String) → P (err (callback message)))
      → P (retry A 3 callback attempt)
  retry_rule P each after = subst P (sym retry-eq-three) (
      three_rule P (attempt 0) (attempt 1) (attempt 2) (λ r. each 0 r (omega arith))
        (λ r. each 1 r (omega arith)) (λ r. each 2 r (omega arith)) after)

-- Attempts beyond the third one do not matter.
pub retry-three :
    (retry : Retry) (law : IsRetry retry) (A : Type 0) (callback : String → Error)
    (f g : ℕ → Attempt A)
    → ((k : ℕ) → k < 3 → f k ≡ g k)
    → retry A 3 callback f ≡ retry A 3 callback g
retry-three retry law A callback f g same =
    retry-eq-three retry law A callback f
    ∙ rw (same 0 (omega arith), same 1 (omega arith), same 2 (omega arith)) refl
    ∙ sym (retry-eq-three retry law A callback g)
