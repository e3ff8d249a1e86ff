-- ===== src/Services/Authentication/Effect.antt =====
-- What an attempt does to the stored credentials.
use mathlib.Core.Option
use buildos_auth_service.Prelude.{
  ℕ, ◌+◌, ◌≡◌, ◌≢◌, refl, String, true, false, not, Option, none, some, find, or_default, arith,
  leb, find-update, find-passes, find-IsDistinct, IsDistinct, if◌then◌else◌, eq_self,
  update-IsDistinct,
}
use buildos_auth_service.Core.Config.{Settings, minutes}
use buildos_auth_service.Models.{AuthCredential}
use buildos_auth_service.External.{External}
use buildos_auth_service.Database.{World, Returns}
use buildos_auth_service.Repositories.Credential.{belongs_to, has_id}
use buildos_auth_service.Security.Authentication.{can_authenticate}
use buildos_auth_service.Security.PasswordHashing.{verify_password}
use buildos_auth_service.Services.Context.{RequestContext}
use buildos_auth_service.Services.Authentication.{authenticate, check_credential}

-- A wrong password: one failure more, and a lock from the configured count on.
abbrev pub after_failure : Settings → ℕ → AuthCredential → AuthCredential
after_failure settings at c =
    if leb settings.max_failed_login_attempts (c.failed_login_count + 1)
    then record c {
      failed_login_count = c.failed_login_count + 1;
      is_locked = true;
      locked_until = some (at + minutes settings.login_lockout_minutes);
    }
    else record c { failed_login_count = c.failed_login_count + 1 }

-- The right password: no failures and no lock.
abbrev pub after_success : ℕ → AuthCredential → AuthCredential
after_success at c = record c {
  failed_login_count = 0;
  is_locked = false;
  locked_until = none;
  last_login_at = some at;
}

-- A credential after an attempt on it.
abbrev pub after_attempt : External → String → ℕ → AuthCredential → AuthCredential
after_attempt x password at c =
    if not (can_authenticate c (some at) at)
    then c
    else if verify_password x password c.password_hash
    then after_success at c
    else after_failure x.settings at c

-- What an attempt on `user_id` leaves of a credential that a query finds.
abbrev pub FindsAfter : External → ℕ → String → ℕ → World → World → Type 0
FindsAfter x user_id password at w w' =
    find (belongs_to user_id) w'.credentials
    ≡ Option.map (after_attempt x password at) (find (belongs_to user_id) w.credentials)

module _ (x : External) (user_id : ℕ) (password identifier : String)
    (context : RequestContext) where
  check_credential-FindsAfter :
      (at : ℕ) (found : Option AuthCredential) (w : World)
      → find (belongs_to user_id) w.credentials ≡ found
      → Returns
          (λ r w'. FindsAfter x user_id password at w w')
          (check_credential x user_id password identifier context at found w)
  unfolding check_credential can_authenticate
  check_credential-FindsAfter at none w e = ground arith
  check_credential-FindsAfter at (some c) w e = grind (arith, find-update, eq_self)

  -- An attempt leaves of the user's credential what `after_attempt` says: nothing changes if it may
  -- not be used, the right password clears failures and lock, and a wrong one is counted and locks
  -- from the configured number on.
  pub authenticate-FindsAfter :
      (now : Option ℕ) (w : World)
      → Returns
          (λ r w'. FindsAfter x user_id password (or_default now w.clock) w w')
          (authenticate x user_id password identifier context now w)
  unfolding authenticate
  authenticate-FindsAfter now w =
      check_credential-FindsAfter (or_default now w.clock) (find (belongs_to user_id) w.credentials)
        w refl

-- A query for another user finds what it found before.
abbrev pub FindsSame : ℕ → World → World → Type 0
FindsSame v w w' = find (belongs_to v) w'.credentials ≡ find (belongs_to v) w.credentials

-- Rows of different users have different ids.
other_row :
    (v user_id : ℕ) (w : World) (c d : AuthCredential)
    → IsDistinct (λ r. r.id) w.credentials
    → v ≢ user_id
    → find (belongs_to user_id) w.credentials ≡ some c
    → find (belongs_to v) w.credentials ≡ some d
    → has_id c.id d ≡ false
other_row v user_id w c d distinct ne ec ed = ground (
  arith,
  find-IsDistinct (λ r. r.id) (belongs_to v) (belongs_to user_id) w.credentials d c distinct ed ec,
  find-passes (belongs_to user_id) w.credentials {x = c} ec,
  find-passes (belongs_to v) w.credentials {x = d} ed,
)

-- The ids of the credentials stay distinct.
abbrev pub DistinctIds : World → Type 0
DistinctIds w = IsDistinct (λ r. r.id) w.credentials

module _ (x : External) (user_id : ℕ) (password identifier : String)
    (context : RequestContext) where
  check_credential-others :
      (v at : ℕ) (found seen : Option AuthCredential) (w : World)
      → DistinctIds w
      → v ≢ user_id
      → find (belongs_to user_id) w.credentials ≡ found
      → find (belongs_to v) w.credentials ≡ seen
      → Returns
          (λ r w'. FindsSame v w w')
          (check_credential x user_id password identifier context at found w)
  unfolding check_credential
  check_credential-others v at none seen w distinct ne e s = ground arith
  check_credential-others v at (some c) none w distinct ne e s = grind (arith, find-update)
  check_credential-others v at (some c) (some d) w distinct ne e s =
      let elsewhere = other_row v user_id w c d distinct ne e s in grind (arith, find-update)

  -- Where ids are distinct, an attempt leaves every other user's credential as it was.
  pub authenticate-others :
      (v : ℕ) (now : Option ℕ) (w : World)
      → DistinctIds w
      → v ≢ user_id
      → Returns
          (λ r w'. FindsSame v w w')
          (authenticate x user_id password identifier context now w)
  unfolding authenticate
  authenticate-others v now w distinct ne =
      check_credential-others v (or_default now w.clock) (find (belongs_to user_id) w.credentials)
        (find (belongs_to v) w.credentials) w distinct ne refl refl

  check_credential-DistinctIds :
      (at : ℕ) (found : Option AuthCredential) (w : World)
      → DistinctIds w
      → Returns
          (λ r w'. DistinctIds w')
          (check_credential x user_id password identifier context at found w)
  unfolding check_credential
  check_credential-DistinctIds at none w h = h
  check_credential-DistinctIds at (some c) w h = grind (arith, update-IsDistinct)
