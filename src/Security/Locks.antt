-- ===== src/Security/Locks.antt =====
-- The states of a credential's lock: app/security/authentication.py.
use buildos_auth_service.Prelude.{ℕ, ◌≡◌, ◌≤◌, true, false, not, ◌&&◌, ◌||◌, Option, none, arith}
use buildos_auth_service.Models.{AuthCredential}
use buildos_auth_service.Security.Authentication.{
  is_credential_locked, lock_has_expired, can_authenticate,
}

-- The flag on the row is the lock that holds or the lock that has expired, and never both; the
-- credential may be used exactly if it is active and the lock is not one that holds.
pub is_credential_locked-lock_has_expired :
    (c : AuthCredential) (now : Option ℕ) (clock : ℕ)
    → (c.is_locked ≡ (is_credential_locked c now clock || lock_has_expired c now clock))
      × ((is_credential_locked c now clock && lock_has_expired c now clock) ≡ false)
      × (can_authenticate c now clock
          ≡ (c.is_active && (not c.is_locked || lock_has_expired c now clock)))
unfolding is_credential_locked lock_has_expired can_authenticate
is_credential_locked-lock_has_expired c now clock = ground arith

-- As time goes on and the row stays as it is, a credential that may be used stays usable.
pub can_authenticate_mono :
    (c : AuthCredential) (clock later : ℕ)
    → clock ≤ later
    → can_authenticate c none clock ≡ true
    → can_authenticate c none later ≡ true
unfolding can_authenticate
can_authenticate_mono c clock later le h = ground arith
