-- ===== src/Api/Errors/Classes.antt =====
-- The classes of the exceptions that actions raise.
use buildos_auth_service.Prelude.{ℕ, ◌≡◌, Bool, true, false, ◌||◌, ◌==◌, List, [], ◌∷◌, arith}
use buildos_auth_service.Core.Exceptions.{
  Error, invalid_token, expired_token, revoked_token, invalid_credentials, password_reset,
  is_integration_error, integrity_error, pending_rollback,
}
use buildos_auth_service.Database.{World, Action, Result, ok, err, with_session}
use buildos_auth_service.Integrations.UserService.Errors.{RaisesOnly, is_creation_error}
use buildos_auth_service.Api.Errors.{map_result}

-- A class that the first action and the second keep to, the two in a row keep to.
pub raises_bind {ℓ κ} :
    {A : Type ℓ} {B : Type κ} (p : Error → Bool) (m : Result A × World) (f : A → Action B)
    → RaisesOnly p m.0
    → ((a : A) (w : World) → RaisesOnly p (f a w).0)
    → RaisesOnly p (elim m.0 as (λ r. Result B × World) [ ok a ↦ f a m.1 | err e ↦ (err e, m.1) ]).0
raises_bind p (ok a, w) f h k = k a w
raises_bind p (err e, w) f h k = h

-- An `except` clause takes one class to another.
pub raises_map {ℓ} :
    {A : Type ℓ} (p q : Error → Bool) (handler : Error → Error) (r : Result A)
    → RaisesOnly p r
    → ((e : Error) → p e ≡ true → q (handler e) ≡ true)
    → RaisesOnly q (map_result handler r)
raises_map p q handler (ok a) h k = tt
raises_map p q handler (err e) h k = k e h

pub raises_sub {ℓ} :
    {A : Type ℓ} (p q : Error → Bool) (r : Result A)
    → RaisesOnly p r
    → ((e : Error) → p e ≡ true → q e ≡ true)
    → RaisesOnly q r
raises_sub p q (ok a) h k = tt
raises_sub p q (err e) h k = k e h

-- The session of a request does not change which exception ends it.
pub raises_session {ℓ} :
    {A : Type ℓ} (p : Error → Bool) (handler : Action A) (w : World)
    → RaisesOnly p (handler w).0
    → RaisesOnly p (with_session handler w).0
unfolding with_session
raises_session p handler w h = ground (arith, h)

abbrev pub one_of : ℕ → List ℕ → Bool
one_of n [] = false
one_of n (m ∷ rest) = (n == m) || one_of n rest

-- The exceptions of the token service's own checks.
abbrev pub is_token_error : Error → Bool
is_token_error (invalid_token m) = true
is_token_error (expired_token m) = true
is_token_error (revoked_token m) = true
is_token_error _ = false

abbrev pub is_invalid_credentials : Error → Bool
is_invalid_credentials (invalid_credentials m) = true
is_invalid_credentials _ = false

abbrev pub is_password_reset : Error → Bool
is_password_reset (password_reset m) = true
is_password_reset _ = false

abbrev pub is_integrity_error : Error → Bool
is_integrity_error integrity_error = true
is_integrity_error _ = false

abbrev pub is_refresh_error : Error → Bool
is_refresh_error integrity_error = true
is_refresh_error e = is_token_error e

abbrev pub is_database_error : Error → Bool
is_database_error integrity_error = true
is_database_error pending_rollback = true
is_database_error _ = false

abbrev pub is_registration_error : Error → Bool
is_registration_error integrity_error = true
is_registration_error pending_rollback = true
is_registration_error e = is_creation_error e

abbrev pub is_access_error : Error → Bool
is_access_error (invalid_token m) = true
is_access_error (expired_token m) = true
is_access_error _ = false

abbrev pub is_request_error : Error → Bool
is_request_error integrity_error = true
is_request_error e = is_integration_error e
