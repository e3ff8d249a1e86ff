-- ===== src/Security/Authentication.antt =====
-- app/security/authentication.py. `now` is the argument, or else the system clock.
use buildos_auth_service.Prelude.{
  ℕ, Bool, true, false, not, Option, none, some, leb, ltb, or_default, if◌then◌else◌,
}
use buildos_auth_service.Models.{AuthCredential}

unfoldable pub is_credential_active : AuthCredential → Bool
is_credential_active credential = credential.is_active

-- `locked_until > current_time`, or the lock is permanent.
abbrev pub lock_holds : Option ℕ → ℕ → Bool
lock_holds none current_time = true
lock_holds (some until) current_time = ltb current_time until

unfoldable pub is_credential_locked : AuthCredential → Option ℕ → ℕ → Bool
is_credential_locked credential now clock =
    if not credential.is_locked
    then false
    else lock_holds credential.locked_until (or_default now clock)

unfoldable pub can_authenticate : AuthCredential → Option ℕ → ℕ → Bool
unfolding is_credential_active is_credential_locked
can_authenticate credential now clock =
    if not (is_credential_active credential)
    then false
    else not (is_credential_locked credential now clock)

-- `locked_until <= current_time`; a permanent lock does not expire.
abbrev pub lock_is_over : Option ℕ → ℕ → Bool
lock_is_over none current_time = false
lock_is_over (some until) current_time = leb until current_time

unfoldable pub lock_has_expired : AuthCredential → Option ℕ → ℕ → Bool
lock_has_expired credential now clock =
    if not credential.is_locked
    then false
    else lock_is_over credential.locked_until (or_default now clock)

unfoldable pub should_clear_expired_lock : AuthCredential → Option ℕ → ℕ → Bool
unfolding lock_has_expired
should_clear_expired_lock credential now clock = lock_has_expired credential now clock
