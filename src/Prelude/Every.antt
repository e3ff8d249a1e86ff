-- ===== src/Prelude/Every.antt =====
-- A test that every row of a table passes, through the changes of the table.
use mathlib.Core.Path.{◌≡◌, refl, ap}
use mathlib.Core.Logic.{◌≢◌, inl, inr}
use mathlib.Core.Bool.{Bool, true, not, ◌&&◌}
use mathlib.Core.Option.{Option, none, some}
use mathlib.Core.List.{List, [], ◌∷◌, ◌++◌}
use native.Mathlib.Omega.{arith}
use buildos_auth_service.Prelude.Tests.{Bool-cases}
use buildos_auth_service.Prelude.Tables.{find, select, update, All, IsDistinct}

-- Every row passes a test.
unfoldable pub every {ℓ} : {A : Type ℓ} → (A → Bool) → List A → Bool
every p [] = true
every p (x ∷ xs) = p x && every p xs

module _ {ℓ} {A : Type ℓ} (p : A → Bool) where
  pub every-append : (xs ys : List A) → every p (xs ++ ys) ≡ (every p xs && every p ys)
  unfolding every
  every-append [] ys = refl
  every-append (x ∷ xs) ys = ground (arith, every-append xs ys)

  -- What follows from the test, row by row, holds of every row.
  pub every-implied :
      (q : A → Bool) (xs : List A)
      → ((x : A) → p x ≡ true → q x ≡ true)
      → every p xs ≡ true
      → every q xs ≡ true
  unfolding every
  every-implied q [] h each = refl
  every-implied q (x ∷ xs) h each =
      ground (arith, each, h x (ground (arith, each)), every-implied q xs h (ground (arith, each)))

  -- The first row that another test selects passes, too.
  pub every-find :
      (q : A → Bool) (xs : List A) (x : A) → every p xs ≡ true → find q xs ≡ some x → p x ≡ true
  unfolding every find
  every-find q [] x each found = absurd (ground (arith, found))
  every-find q (y ∷ ys) x each found = ground (arith, each, found, every-find q ys x)

  -- An update whose change keeps the test keeps it for every row.
  pub every-update :
      (q : A → Bool) (f : A → A) (xs : List A)
      → ((x : A) → p x ≡ true → p (f x) ≡ true)
      → every p xs ≡ true
      → every p (update q f xs) ≡ true
  unfolding every update
  every-update q f [] keeps h = refl
  every-update q f (x ∷ xs) keeps h = elim (Bool-cases (q x)) [
    | inl hit ↦ rw hit (
        ground
          (arith, h, keeps x (ground (arith, h)), every-update q f xs keeps (ground (arith, h))))
    | inr miss ↦ rw miss (ground (arith, h, every-update q f xs keeps (ground (arith, h))))
  ]

module _ {ℓ} {A : Type ℓ} (p : A → Bool) where
  -- Nothing is selected where every row fails the test.
  pub select-none : (xs : List A) → every (λ x. not (p x)) xs ≡ true → select p xs ≡ []
  unfolding every select
  select-none [] h = refl
  select-none (x ∷ xs) h = ground (arith, h, select-none xs (ground (arith, h)))

abbrev pub rows_of {ℓ} : {A : Type ℓ} → Option A → List A
rows_of none = []
rows_of (some x) = x ∷ []

-- No row is selected by the test for the key of a later row: the keys are pairwise different.
unfoldable pub distinct {ℓ κ} : {A : Type ℓ} {K : Type κ} → (K → A → Bool) → (A → K) → List A → Bool
distinct test key [] = true
distinct test key (x ∷ xs) = every (λ y. not (test (key y) x)) xs && distinct test key xs

module _ {ℓ κ} {A : Type ℓ} {K : Type κ} (test : K → A → Bool) (key : A → K) where
  -- A row whose key no row has can be appended.
  pub distinct-append :
      (xs : List A) (r : A)
      → find (test (key r)) xs ≡ none
      → distinct test key xs ≡ true
      → distinct test key (xs ++ r ∷ []) ≡ true
  unfolding distinct every find
  distinct-append [] r free h = refl
  distinct-append (x ∷ xs) r free h = ground (
    arith,
    free,
    h,
    every-append (λ y. not (test (key y) x)) xs (r ∷ []),
    distinct-append xs r (ground (arith, free)) (ground (arith, h)),
  )

  apart-update :
      (q : A → Bool) (f : A → A) (x : A) (xs : List A)
      → ((y : A) → key (f y) ≡ key y)
      → every (λ y. not (test (key y) x)) (update q f xs) ≡ every (λ y. not (test (key y) x)) xs
  unfolding every update
  apart-update q f x [] same = refl
  apart-update q f x (y ∷ ys) same = elim (Bool-cases (q y)) [
    | inl hit ↦ rw (hit, same y, apart-update q f x ys same) refl
    | inr miss ↦ rw (miss, apart-update q f x ys same) refl
  ]

  apart_same :
      (a b : A) (xs : List A)
      → ((k : K) → test k a ≡ test k b)
      → every (λ y. not (test (key y) a)) xs ≡ every (λ y. not (test (key y) b)) xs
  unfolding every
  apart_same a b [] same = refl
  apart_same a b (y ∷ ys) same = rw (same (key y), apart_same a b ys same) refl

  -- An update that keeps the key keeps the keys different.
  pub distinct-update :
      (q : A → Bool) (f : A → A) (xs : List A)
      → ((y : A) → key (f y) ≡ key y)
      → ((k : K) (y : A) → test k (f y) ≡ test k y)
      → distinct test key (update q f xs) ≡ distinct test key xs
  unfolding distinct update
  distinct-update q f [] same alike = refl
  distinct-update q f (x ∷ xs) same alike = elim (Bool-cases (q x)) [
    | inl hit ↦
        rw
          (
            hit,
            apart-update q f (f x) xs same,
            apart_same (f x) x xs (λ k. alike k x),
            distinct-update q f xs same alike,
          )
          refl
    | inr miss ↦ rw (miss, apart-update q f x xs same, distinct-update q f xs same alike) refl
  ]

  -- If the test for a row's key selects the row, distinct keys are pairwise different.
  apart-All :
      (x : A) (xs : List A)
      → test (key x) x ≡ true
      → every (λ y. not (test (key y) x)) xs ≡ true
      → All (λ y. key y ≢ key x) xs
  unfolding every
  apart-All x [] own h = tt
  apart-All x (y ∷ ys) own h = (
    (λ e. absurd (ground (arith, own, h, ap (λ k. test k x) e))),
    apart-All x ys own (ground (arith, h)),
  )

  pub distinct-IsDistinct :
      (xs : List A)
      → ((x : A) → test (key x) x ≡ true)
      → distinct test key xs ≡ true
      → IsDistinct key xs
  unfolding distinct
  distinct-IsDistinct [] own h = tt
  distinct-IsDistinct (x ∷ xs) own h =
      (apart-All x xs (own x) (ground (arith, h)), distinct-IsDistinct xs own (ground (arith, h)))

  -- Where the keys are pairwise different and two rows that a key selects have the same key, a key
  -- selects one row at most.
  pub select-distinct :
      (k : K) (xs : List A)
      → ((x y : A) → test k x ≡ true → test k y ≡ true → test (key y) x ≡ true)
      → distinct test key xs ≡ true
      → select (test k) xs ≡ rows_of (find (test k) xs)
  unfolding distinct select find
  select-distinct k [] same h = refl
  select-distinct k (x ∷ xs) same h = elim (Bool-cases (test k x)) [
    | inl hit ↦ ground (
      arith,
      hit,
      select-none (test k) xs (
          every-implied (λ y. not (test (key y) x)) (λ y. not (test k y)) xs
            (λ y apart. ground (arith, apart, same x y hit)) (ground (arith, h))),
    )
    | inr miss ↦ ground (arith, miss, select-distinct k xs same (ground (arith, h)))
  ]
