-- ===== src/Repositories/Credential.antt =====
-- app/repositories/credential_repository.py. A flush writes the changed columns to the row of the
-- object, and the object is the same Python object afterwards: a method returns it as it then is.
use buildos_auth_service.Prelude.{
  ℕ, ◌+◌, String, Bool, true, false, Option, none, some, [], ◌∷◌, ◌++◌, ◌==◌, find, update,
}
use buildos_auth_service.Core.Exceptions.{integrity_error}
use buildos_auth_service.Models.{AuthCredential}
use buildos_auth_service.External.{External}
use buildos_auth_service.Database.{Action, ok, gets, draw, raise_if, modify, ◌>>=◌, ◌>>◌, return}

abbrev pub belongs_to : ℕ → AuthCredential → Bool
belongs_to user_id c = c.user_id == user_id

abbrev pub has_id : ℕ → AuthCredential → Bool
has_id id c = c.id == id

unfoldable pub get_by_user_id : ℕ → Action (Option AuthCredential)
get_by_user_id user_id = gets (λ w. find (belongs_to user_id) w.credentials)

abbrev pub is_taken : Option AuthCredential → Bool
is_taken none = false
is_taken (some c) = true

-- The unique index on `user_id` refuses a second row of a user.
unfoldable pub create : External → ℕ → String → Action AuthCredential
create x user_id password_hash = do
  raise_if (← gets (λ w. is_taken (find (belongs_to user_id) w.credentials))) integrity_error
  d ← draw
  now ← gets (λ w. w.clock)
  let credential : AuthCredential = record {
    id = x.uuid4 d;
    user_id = user_id;
    password_hash = password_hash;
    is_active = true;
    is_locked = false;
    failed_login_count = 0;
    locked_until = none;
    password_changed_at = now;
    last_login_at = none;
    created_at = now;
    updated_at = now;
  }
  modify (λ w. record w { credentials = w.credentials ++ credential ∷ [] })
  return credential

-- Assignments to an object's columns, flushed.
abbrev pub write : (AuthCredential → AuthCredential) → AuthCredential → Action AuthCredential
write change c w =
    (ok (change c), record w { credentials = update (has_id c.id) change w.credentials })

unfoldable pub update_password : AuthCredential → String → ℕ → Action AuthCredential
update_password credential password_hash changed_at =
    write (λ c. record c { password_hash = password_hash; password_changed_at = changed_at })
      credential

unfoldable pub record_successful_login : AuthCredential → ℕ → Action AuthCredential
record_successful_login credential login_at =
    write
      (λ c. record c {
        failed_login_count = 0;
        is_locked = false;
        locked_until = none;
        last_login_at = some login_at;
      })
      credential

-- The count is read from the object, not from the row.
unfoldable pub record_failed_login : AuthCredential → Action AuthCredential
record_failed_login credential =
    write (λ c. record c { failed_login_count = credential.failed_login_count + 1 }) credential

unfoldable pub lock : AuthCredential → Option ℕ → Action AuthCredential
lock credential locked_until =
    write (λ c. record c { is_locked = true; locked_until = locked_until }) credential

unfoldable pub unlock : AuthCredential → Action AuthCredential
unlock credential =
    write (λ c. record c { is_locked = false; locked_until = none; failed_login_count = 0 })
      credential

unfoldable pub deactivate : AuthCredential → Action AuthCredential
deactivate credential = write (λ c. record c { is_active = false }) credential

unfoldable pub activate : AuthCredential → Action AuthCredential
activate credential = write (λ c. record c { is_active = true }) credential
