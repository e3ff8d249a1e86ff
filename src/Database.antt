-- ===== src/Database.antt =====
-- The database session of a request (app/database) and the external world that a request sees: the
-- tables, the system clock and the count of random draws. A service call is an action on it: what
-- was written before an exception stays in the session, until the transaction of the request ends.
-- `get_db` commits after a request that returns, and rolls back after one that raises.
use buildos_auth_service.Prelude.{
  ◌≡◌, refl, sym, subst, ◌⊎◌, inl, inr, ℕ, ◌+◌, Bool, true, false, Option, none, some, List,
  or_default, arith,
}
use buildos_auth_service.Core.Exceptions.{Error}
use buildos_auth_service.Models.{
  AuthCredential, AuthEvent, SecurityEvent, LoginAttempt, PasswordReset, RefreshToken,
}

pub record World : Type 0 where
  pub credentials : List AuthCredential
  pub login_attempts : List LoginAttempt
  pub auth_events : List AuthEvent
  pub security_events : List SecurityEvent
  pub refresh_tokens : List RefreshToken
  pub password_resets : List PasswordReset
  pub clock : ℕ
  pub draws : ℕ

pub data Result {ℓ} (A : Type ℓ) : Type ℓ where
  ok : A → Result A
  err : Error → Result A

abbrev pub Action {ℓ} : Type ℓ → Type ℓ
Action A = World → Result A × World

infixl 5 ◌>>=◌ ◌>>◌
abbrev pub ◌>>=◌ {ℓ κ} : {A : Type ℓ} {B : Type κ} → Action A → (A → Action B) → Action B
◌>>=◌ m f w = let (r, w') = m w in elim r [ ok a ↦ f a w' | err e ↦ (err e, w') ]

abbrev pub ◌>>◌ {ℓ κ} : {A : Type ℓ} {B : Type κ} → Action A → Action B → Action B
m >> k = m >>= λ _. k

module _ {ℓ} {A : Type ℓ} where
  abbrev pub return : A → Action A
  return a w = (ok a, w)

  abbrev pub raise : Error → Action A
  raise e w = (err e, w)

  abbrev pub gets : (World → A) → Action A
  gets f w = (ok (f w), w)

  -- A value, or the exception for its absence.
  abbrev pub or_raise : Option A → Error → Action A
  or_raise none e = raise e
  or_raise (some a) e = return a

  abbrev pub lift : Result A → Action A
  lift r w = (r, w)

abbrev pub raise_if : Bool → Error → Action (Unit {0})
raise_if true e = raise e
raise_if false e = return tt

abbrev pub modify : (World → World) → Action (Unit {0})
modify f w = (ok tt, f w)

-- `now or datetime.now(UTC)`
abbrev pub current_time : Option ℕ → Action ℕ
current_time now = gets (λ w. or_default now w.clock)

-- The number of the next random draw: an id, a salt or a token.
abbrev pub draw : Action ℕ
draw w = (ok w.draws, record w { draws = w.draws + 1 })

-- `db.rollback()`: every table is as it was; what was drawn stays drawn.
unfoldable pub rollback : World → World → World
rollback before after = record before { draws = after.draws }

-- `get_db` around the handler of a request.
unfoldable pub with_session {ℓ} : {A : Type ℓ} → Action A → Action A
unfolding rollback
with_session handler w =
    let (r, w') = handler w in elim r [ ok a ↦ (ok a, w') | err e ↦ (err e, rollback w w') ]

-- The action returns, and its value and the world after it satisfy `P`.
abbrev pub Returns {ℓ} : {A : Type ℓ} → (A → World → Type 0) → Result A × World → Type 0
Returns P (ok a, w) = P a w
Returns P (err e, w) = ⊥

-- What holds of the world after an action that returns.
pub Returns-world {ℓ} :
    {A : Type ℓ} (Q : World → Type 0) (m : Result A × World) → Returns (λ a w. Q w) m → Q m.1
Returns-world Q (ok a, w) h = h
Returns-world Q (err e, w) h = absurd h

-- If the action returns, its value and the world after it satisfy `P`.
abbrev pub IfReturns {ℓ} : {A : Type ℓ} → (A → World → Type 0) → Result A × World → Type 0
IfReturns P (ok a, w) = P a w
IfReturns P (err e, w) = Unit

-- The rule for a bind: what the first action ensures, the second may assume.
pub IfReturns-bind {ℓ κ} :
    {A : Type ℓ} {B : Type κ} (P : A → World → Type 0) (Q : B → World → Type 0)
    (m : Result A × World) (f : A → Action B)
    → IfReturns P m
    → ((a : A) (w : World) → P a w → IfReturns Q (f a w))
    → IfReturns Q (elim m.0 [ ok a ↦ f a m.1 | err e ↦ (err e, m.1) ])
IfReturns-bind P Q (ok a, w) f h k = k a w h
IfReturns-bind P Q (err e, w) f h k = tt

pub Returns-bind {ℓ κ} :
    {A : Type ℓ} {B : Type κ} (P : A → World → Type 0) (Q : B → World → Type 0)
    (m : Result A × World) (f : A → Action B)
    → Returns P m
    → ((a : A) (w : World) → P a w → Returns Q (f a w))
    → Returns Q (elim m.0 [ ok a ↦ f a m.1 | err e ↦ (err e, m.1) ])
Returns-bind P Q (ok a, w) f h k = k a w h
Returns-bind P Q (err e, w) f h k = absurd h

-- An action after one whose result is known.
pub Returns-after {ℓ κ} :
    {A : Type ℓ} {B : Type κ} (Q : B → World → Type 0) (m : Result A × World) (f : A → Action B)
    (a : A) (w : World)
    → m ≡ (ok a, w)
    → Returns Q (f a w)
    → Returns Q (elim m.0 as (λ r. Result B × World) [ ok a ↦ f a m.1 | err e ↦ (err e, m.1) ])
Returns-after {B = B} Q m f a w known h =
    subst
      (λ n.
        Returns Q (elim n.0 as (λ r. Result B × World) [ ok a ↦ f a n.1 | err e ↦ (err e, n.1) ]))
      (sym known) h

pub Returns-IfReturns {ℓ} :
    {A : Type ℓ} (P : A → World → Type 0) (m : Result A × World) → Returns P m → IfReturns P m
Returns-IfReturns P (ok a, w) h = h
Returns-IfReturns P (err e, w) h = tt

-- What the first action keeps and the second keeps, the two in a row keep, also where one raises.
pub bind-world {ℓ κ} :
    {A : Type ℓ} {B : Type κ} (Q : World → Type 0) (m : Result A × World) (f : A → Action B)
    → Q m.1
    → ((a : A) (w : World) → Q w → Q (f a w).1)
    → Q (elim m.0 as (λ r. Result B × World) [ ok a ↦ f a m.1 | err e ↦ (err e, m.1) ]).1
bind-world Q (ok a, w) f h k = k a w h
bind-world Q (err e, w) f h k = h

-- The same, where the first action leaves the world as it was.
pub bind-unchanged {ℓ κ} :
    {A : Type ℓ} {B : Type κ} (Q : World → Type 0) (w : World) (m : Result A × World)
    (f : A → Action B)
    → m.1 ≡ w
    → Q w
    → ((a : A) → Q (f a w).1)
    → Q (elim m.0 as (λ r. Result B × World) [ ok a ↦ f a m.1 | err e ↦ (err e, m.1) ]).1
bind-unchanged Q w (ok a, w') f same h k = subst (λ v. Q (f a v).1) (sym same) (k a)
bind-unchanged Q w (err e, w') f same h k = subst Q (sym same) h

pub Returns-map {ℓ} :
    {A : Type ℓ} (P Q : A → World → Type 0) (m : Result A × World)
    → ((a : A) (w : World) → P a w → Q a w)
    → Returns P m
    → Returns Q m
Returns-map P Q (ok a, w) f h = f a w h
Returns-map P Q (err e, w) f h = h

-- What is said of what returns holds of the value that was returned.
pub IfReturns-ok {ℓ} :
    {A : Type ℓ} (P : A → World → Type 0) (m : Result A × World) (a : A)
    → IfReturns P m
    → m.0 ≡ ok a
    → P a m.1
IfReturns-ok P (ok b, w) a h e = subst (λ r. IfReturns P (r, w)) e h
IfReturns-ok P (err e', w) a h e = absurd (ground (arith, e))

pub IfReturns-map {ℓ} :
    {A : Type ℓ} (P Q : A → World → Type 0) (m : Result A × World)
    → ((a : A) (w : World) → P a w → Q a w)
    → IfReturns P m
    → IfReturns Q m
IfReturns-map P Q (ok a, w) f h = f a w h
IfReturns-map P Q (err e, w) f h = tt

abbrev pub is_ok {ℓ} : {A : Type ℓ} → Result A → Bool
is_ok (ok a) = true
is_ok (err e) = false

pub Result-cases {ℓ} :
    {A : Type ℓ} (r : Result A) → ((a : A) × (r ≡ ok a)) ⊎ ((e : Error) × (r ≡ err e))
Result-cases (ok a) = inl (a, refl)
Result-cases (err e) = inr (e, refl)

-- An action that returns has a value.
pub Returns-ok {ℓ} :
    {A : Type ℓ} (P : A → World → Type 0) (m : Result A × World)
    → Returns P m
    → (a : A) × (m.0 ≡ ok a)
Returns-ok P (ok a, w) h = (a, refl)
Returns-ok P (err e, w) h = absurd h

-- What holds of an action's result and what holds of the world after it hold together.
pub IfReturns-and_world {ℓ} :
    {A : Type ℓ} (P : A → World → Type 0) (Q : World → Type 0) (m : Result A × World)
    → IfReturns P m
    → Q m.1
    → IfReturns (λ a w. P a w × Q w) m
IfReturns-and_world P Q (ok a, w) h k = (h, k)
IfReturns-and_world P Q (err e, w) h k = tt

-- What raises satisfies anything that is said of what returns.
pub IfReturns-err {ℓ} :
    {A : Type ℓ} (P : A → World → Type 0) (m : Result A × World) (e : Error)
    → m.0 ≡ err e
    → IfReturns P m
IfReturns-err P (ok a, w) e h = absurd (ground (arith, h))
IfReturns-err P (err e', w) e h = tt
