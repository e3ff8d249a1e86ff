-- ===== src/Repositories/PasswordResets.antt =====
-- app/repositories/password_reset_repository.py
use mathlib.Core.List.{head?}
use buildos_auth_service.Prelude.{
  ℕ, String, Bool, true, false, not, ◌&&◌, Option, none, some, [], ◌∷◌, ◌++◌, ◌==◌, str_eq, ltb,
  find, select, update, sort_desc,
}
use buildos_auth_service.Core.Exceptions.{integrity_error}
use buildos_auth_service.Models.{PasswordReset}
use buildos_auth_service.External.{External}
use buildos_auth_service.Database.{Action, ok, gets, draw, raise_if, modify, ◌>>=◌, ◌>>◌, return}

abbrev pub has_hash : String → PasswordReset → Bool
has_hash token_hash r = str_eq r.token_hash token_hash

abbrev pub has_id : ℕ → PasswordReset → Bool
has_id id r = r.id == id

abbrev pub is_taken : Option PasswordReset → Bool
is_taken none = false
is_taken (some r) = true

-- The unique index on `token_hash` refuses a second row with the hash.
unfoldable pub create :
    External
    → (user_id : ℕ) (token_hash : String) (expires_at : ℕ) (requested_ip : Option String)
    → Action PasswordReset
create x user_id token_hash expires_at requested_ip = do
  raise_if (← gets (λ w. is_taken (find (has_hash token_hash) w.password_resets))) integrity_error
  d ← draw
  now ← gets (λ w. w.clock)
  let reset : PasswordReset = record {
    id = x.uuid4 d;
    user_id = user_id;
    token_hash = token_hash;
    expires_at = expires_at;
    used_at = none;
    is_used = false;
    created_at = now;
    requested_ip = requested_ip;
  }
  modify (λ w. record w { password_resets = w.password_resets ++ reset ∷ [] })
  return reset

unfoldable pub get_by_token_hash : String → Action (Option PasswordReset)
get_by_token_hash token_hash = gets (λ w. find (has_hash token_hash) w.password_resets)

-- Unused and unexpired, with the hash.
abbrev pub is_usable : String → ℕ → PasswordReset → Bool
is_usable token_hash now r = has_hash token_hash r && (not r.is_used && ltb now r.expires_at)

unfoldable pub get_active_by_token_hash : String → ℕ → Action (Option PasswordReset)
get_active_by_token_hash token_hash now =
    gets (λ w. find (is_usable token_hash now) w.password_resets)

unfoldable pub get_latest_by_user : ℕ → Action (Option PasswordReset)
get_latest_by_user user_id = gets (λ w.
    head? (sort_desc (λ r. r.created_at) (select (λ r. r.user_id == user_id) w.password_resets)))

-- Assignments to an object's columns, flushed.
abbrev pub write : (PasswordReset → PasswordReset) → PasswordReset → Action PasswordReset
write change r w =
    (ok (change r), record w { password_resets = update (has_id r.id) change w.password_resets })

unfoldable pub mark_used : PasswordReset → ℕ → Action PasswordReset
mark_used reset used_at = write (λ r. record r { is_used = true; used_at = some used_at }) reset
