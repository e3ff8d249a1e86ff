-- ===== src/Prelude/Tables.antt =====
-- Tables as lists of rows: the first row that a test selects, all of them, and an update of the
-- rows that a test selects.
use Prim.Native.Nat.{ℕ, suc, ◌+◌}
use mathlib.Core.Path.{◌≡◌, refl, ap, subst}
use mathlib.Core.Logic.{◌≢◌, inl, inr}
use mathlib.Core.Bool.{Bool, true, false}
use mathlib.Core.Option.{Option, none, some}
use mathlib.Core.Option
use mathlib.Core.List.{List, [], ◌∷◌, ◌++◌}
use native.Mathlib.Omega.{arith}
use buildos_auth_service.Prelude.Tests.{if◌then◌else◌, Bool-cases}

module _ {ℓ} {A : Type ℓ} where
  abbrev pub length : List A → ℕ
  length [] = 0
  length (x ∷ xs) = suc (length xs)

  -- `db.scalar(select(T).where(p))`: the first row, or None.
  unfoldable pub find : (A → Bool) → List A → Option A
  find p [] = none
  find p (x ∷ xs) = if p x then some x else find p xs

  -- `select(T).where(p)`: all rows.
  unfoldable pub select : (A → Bool) → List A → List A
  select p [] = []
  select p (x ∷ xs) = let rest = select p xs in if p x then x ∷ rest else rest

  -- The flush of a change to the rows that `p` selects.
  unfoldable pub update : (A → Bool) → (A → A) → List A → List A
  update p f [] = []
  update p f (x ∷ xs) = (if p x then f x else x) ∷ update p f xs

  -- Every row satisfies `P`.
  abbrev pub All {κ} : (A → Type κ) → List A → Type κ
  All P [] = Unit
  All P (x ∷ xs) = P x × All P xs

  pub length-append : (xs ys : List A) → length (xs ++ ys) ≡ length xs + length ys
  length-append [] ys = omega arith
  length-append (x ∷ xs) ys = omega (arith, length-append xs ys)

  pub length-update : (p : A → Bool) (f : A → A) (xs : List A) → length (update p f xs) ≡ length xs
  unfolding update
  length-update p f [] = refl
  length-update p f (x ∷ xs) = ap suc (length-update p f xs)

  pub find-append :
      (p : A → Bool) (xs ys : List A)
      → find p (xs ++ ys) ≡ elim (find p xs) [ none ↦ find p ys | some x ↦ some x ]
  unfolding find
  find-append p [] ys = refl
  find-append p (x ∷ xs) ys = ground (arith, find-append p xs ys)

  -- What `find` returns passes the test.
  pub find-passes : (p : A → Bool) (xs : List A) {x : A} → find p xs ≡ some x → p x ≡ true
  unfolding find
  find-passes p [] h = ground arith
  find-passes p (y ∷ ys) {x} h = ground (arith, find-passes p ys {x = x})

  pub select-append :
      (p : A → Bool) (xs ys : List A) → select p (xs ++ ys) ≡ select p xs ++ select p ys
  unfolding select
  select-append p [] ys = refl
  select-append p (x ∷ xs) ys = ground (arith, select-append p xs ys)

  pub All-append {κ} : (P : A → Type κ) (xs ys : List A) → All P xs → All P ys → All P (xs ++ ys)
  All-append P [] ys hx hy = hy
  All-append P (x ∷ xs) ys hx hy = (hx.0, All-append P xs ys hx.1 hy)

  pub All-implied {κ ν} :
      (P : A → Type κ) (Q : A → Type ν) (xs : List A) → ((x : A) → P x → Q x) → All P xs → All Q xs
  All-implied P Q [] h each = tt
  All-implied P Q (x ∷ xs) h each = (h x each.0, All-implied P Q xs h each.1)

  pub All-find {κ} :
      (P : A → Type κ) (p : A → Bool) (xs : List A) {x : A} → find p xs ≡ some x → All P xs → P x
  unfolding find
  All-find P p [] e h = ground arith
  All-find P p (y ∷ ys) {x} e h = elim (Bool-cases (p y)) [
    | inl eq ↦ subst P (ground arith) h.0
    | inr ne ↦ All-find P p ys (ground arith) h.1
  ]

module _ {ℓ} {A : Type ℓ} where
  -- A row as an update leaves it.
  abbrev pub updated : (A → Bool) → (A → A) → A → A
  updated q f x = if q x then f x else x

  -- The row that `find` selects is the updated one, if the update keeps what `find` tests.
  pub find-update :
      (p q : A → Bool) (f : A → A) (xs : List A)
      → ((x : A) → p (f x) ≡ p x)
      → find p (update q f xs) ≡ Option.map (updated q f) (find p xs)
  unfolding find update
  find-update p q f [] keeps = refl
  find-update p q f (x ∷ xs) keeps = elim (Bool-cases (q x)) [
    | inl hit ↦ rw (hit, keeps x) (ground (arith, find-update p q f xs keeps))
    | inr miss ↦ rw miss (ground (arith, find-update p q f xs keeps))
  ]

-- A column whose values are pairwise different.
abbrev pub IsDistinct {ℓ κ} : {A : Type ℓ} {K : Type κ} → (A → K) → List A → Type κ
IsDistinct key [] = Unit
IsDistinct key (x ∷ xs) = All (λ y. key y ≢ key x) xs × IsDistinct key xs

module _ {ℓ κ} {A : Type ℓ} {K : Type κ} (key : A → K) where
  -- Two selected rows with one key are one row.
  pub find-IsDistinct :
      (p q : A → Bool) (xs : List A) (a b : A)
      → IsDistinct key xs
      → find p xs ≡ some a
      → find q xs ≡ some b
      → key a ≡ key b
      → a ≡ b
  unfolding find
  find-IsDistinct p q [] a b d ea eb e = cc
  find-IsDistinct p q (x ∷ xs) a b d ea eb e = elim (Bool-cases (p x)) [
    | inl px ↦ elim (Bool-cases (q x)) [
      | inl qx ↦ ground arith
      | inr qx ↦
          absurd (All-find (λ y. key y ≢ key x) q xs {x = b} (ground arith) d.0 (ground arith))
    ]
    | inr px ↦ elim (Bool-cases (q x)) [
      | inl qx ↦
          absurd (All-find (λ y. key y ≢ key x) p xs {x = a} (ground arith) d.0 (ground arith))
      | inr qx ↦ find-IsDistinct p q xs a b d.1 (ground arith) (ground arith) e
    ]
  ]

  -- An update that keeps the column keeps it distinct.
  pub All-update_ne :
      (k : K) (p : A → Bool) (f : A → A) (xs : List A)
      → ((x : A) → key (f x) ≡ key x)
      → All (λ y. key y ≢ k) xs
      → All (λ y. key y ≢ k) (update p f xs)
  unfolding update
  All-update_ne k p f [] keeps h = tt
  All-update_ne k p f (x ∷ xs) keeps h =
      (ground (arith, keeps x, h.0), All-update_ne k p f xs keeps h.1)

  pub update-IsDistinct :
      (p : A → Bool) (f : A → A) (xs : List A)
      → ((x : A) → key (f x) ≡ key x)
      → IsDistinct key xs
      → IsDistinct key (update p f xs)
  unfolding update
  update-IsDistinct p f [] keeps d = tt
  update-IsDistinct p f (x ∷ xs) keeps d = elim (Bool-cases (p x)) [
    | inl hit ↦
        rw (hit, keeps x)
          (All-update_ne (key x) p f xs keeps d.0, update-IsDistinct p f xs keeps d.1)
    | inr miss ↦
        rw miss (All-update_ne (key x) p f xs keeps d.0, update-IsDistinct p f xs keeps d.1)
  ]

module _ {ℓ} {A : Type ℓ} where
  -- If the change of each selected row makes it unselected, nothing is selected afterwards.
  pub select-update_none :
      (p : A → Bool) (f : A → A) (xs : List A)
      → ((x : A) → p x ≡ true → p (f x) ≡ false)
      → select p (update p f xs) ≡ []
  unfolding select update
  select-update_none p f [] out = refl
  select-update_none p f (x ∷ xs) out = elim (Bool-cases (p x)) [
    | inl hit ↦ rw (hit, out x hit) (select-update_none p f xs out)
    | inr miss ↦ rw (miss, miss) (select-update_none p f xs out)
  ]

  -- Rows that another update leaves alone are selected as before.
  pub select-update_same :
      (p q : A → Bool) (f : A → A) (xs : List A)
      → ((x : A) → q x ≡ true → (p x ≡ false) × (p (f x) ≡ false))
      → select p (update q f xs) ≡ select p xs
  unfolding select update
  select-update_same p q f [] apart = refl
  select-update_same p q f (x ∷ xs) apart = elim (Bool-cases (q x)) [
    | inl hit ↦ rw (hit, (apart x hit).0, (apart x hit).1) (select-update_same p q f xs apart)
    | inr miss ↦ rw miss (ground (arith, select-update_same p q f xs apart))
  ]

  -- What passes a test is found by every weaker test, though perhaps behind another row.
  pub find-weaker :
      (p q : A → Bool) (xs : List A) (a : A)
      → ((x : A) → p x ≡ true → q x ≡ true)
      → find p xs ≡ some a
      → find q xs ≢ none
  unfolding find
  find-weaker p q [] a weaker e = cc
  find-weaker p q (x ∷ xs) a weaker e = elim (Bool-cases (q x)) [
    | inl passes ↦ ground arith
    | inr fails ↦ ground (arith, weaker x, find-weaker p q xs a weaker)
  ]
