-- ===== src/Services/Authentication/Lockout.antt =====
-- Account lockout over a sequence of attempts whose writes are kept: the services of one session.
use mathlib.Core.Option
use buildos_auth_service.Prelude.{
  ℕ, ◌+◌, ◌≡◌, ◌<◌, ◌≤◌, ap, String, true, false, ◌&&◌, some, List, [], ◌∷◌, find, All, arith, ltb,
  length, if◌then◌else◌, ◌∙◌, sym, subst,
}
use buildos_auth_service.Core.Config.{Settings, minutes}
use buildos_auth_service.Models.{AuthCredential}
use buildos_auth_service.External.{External}
use buildos_auth_service.Database.{World, Returns, Returns-world}
use buildos_auth_service.Repositories.Credential.{belongs_to}
use buildos_auth_service.Security.Authentication.{can_authenticate, lock_has_expired}
use buildos_auth_service.Security.PasswordHashing.{verify_password}
use buildos_auth_service.Services.Context.{RequestContext}
use buildos_auth_service.Services.Authentication.{authenticate}
use buildos_auth_service.Services.Authentication.Outcome.{admits, authenticate-admits}
use buildos_auth_service.Services.Authentication.Effect.{
  after_attempt, FindsAfter, authenticate-FindsAfter,
}

-- The credential after `n` wrong passwords at one time, from an unlocked one.
abbrev pub guessed : Settings → ℕ → ℕ → AuthCredential → AuthCredential
guessed settings at n c =
    if ltb (c.failed_login_count + n) settings.max_failed_login_attempts
    then record c { failed_login_count = c.failed_login_count + n }
    else record c {
      failed_login_count = settings.max_failed_login_attempts;
      is_locked = true;
      locked_until = some (at + minutes settings.login_lockout_minutes);
    }

-- An active credential that is not locked, below the limit.
pub record IsOpen (settings : Settings) (c : AuthCredential) : Type 0 where
  pub active : c.is_active ≡ true
  pub unlocked : c.is_locked ≡ false
  pub below : c.failed_login_count < settings.max_failed_login_attempts
  pub lasting : 0 < settings.login_lockout_minutes

module _ (x : External) where
  -- One more wrong password.
  guessed-step :
      (password : String) (at n : ℕ) (c : AuthCredential)
      → IsOpen x.settings c
      → verify_password x password c.password_hash ≡ false
      → after_attempt x password at (guessed x.settings at n c) ≡ guessed x.settings at (n + 1) c
  unfolding can_authenticate
  guessed-step password at n c o wrong = ground arith

-- The world after attempts at the time `at`, one for each password.
abbrev pub attempt_all : External → ℕ → String → RequestContext → ℕ → List String → World → World
attempt_all x user_id identifier context at [] w = w
attempt_all x user_id identifier context at (password ∷ rest) w =
    attempt_all x user_id identifier context at rest
      (authenticate x user_id password identifier context (some at) w).1

-- None of the passwords fits the hash.
abbrev pub AllWrong : External → String → List String → Type 0
AllWrong x hash = All (λ password. verify_password x password hash ≡ false)

module _ (x : External) (user_id : ℕ) (identifier : String) (context : RequestContext) (at : ℕ)
    (c : AuthCredential) (o : IsOpen x.settings c) where
  find-authenticate :
      (password : String) (n : ℕ) (w : World)
      → verify_password x password c.password_hash ≡ false
      → find (belongs_to user_id) w.credentials ≡ some (guessed x.settings at n c)
      → find
          (belongs_to user_id)
          (authenticate x user_id password identifier context (some at) w).1.credentials
        ≡ some (guessed x.settings at (n + 1) c)
  find-authenticate password n w wrong e =
      Returns-world (FindsAfter x user_id password at w)
        (authenticate x user_id password identifier context (some at) w)
        (authenticate-FindsAfter x user_id password identifier context (some at) w)
      ∙ ap (Option.map (after_attempt x password at)) e
      ∙ ap some (guessed-step x password at n c o wrong)

  find-attempt_all :
      (passwords : List String) (n : ℕ) (w : World)
      → AllWrong x c.password_hash passwords
      → find (belongs_to user_id) w.credentials ≡ some (guessed x.settings at n c)
      → find
          (belongs_to user_id)
          (attempt_all x user_id identifier context at passwords w).credentials
        ≡ some (guessed x.settings at (n + length passwords) c)
  find-attempt_all [] n w wrong e = e ∙ ap (λ m. some (guessed x.settings at m c)) (omega arith)
  find-attempt_all (p ∷ ps) n w wrong e =
      find-attempt_all ps (n + 1) (authenticate x user_id p identifier context (some at) w).1
        wrong.1 (find-authenticate p n w wrong.0 e)
      ∙ ap (λ m. some (guessed x.settings at m c)) (omega arith)

  guessed_none : guessed x.settings at 0 c ≡ c
  guessed_none = ground (arith, o.below)

  admits-guessed :
      (password : String) (n : ℕ)
      → admits x password at (some (guessed x.settings at n c))
        ≡ ltb (c.failed_login_count + n) x.settings.max_failed_login_attempts
          && verify_password x password c.password_hash
  unfolding can_authenticate
  admits-guessed password n = ground (arith, o.active, o.unlocked, o.lasting)

  -- After wrong passwords in a row on an open credential, an attempt at the same time succeeds
  -- exactly if they were fewer than the failures left before the limit and its password is right:
  -- from the limit on, the right password is refused too.
  pub attempt_all-lockout :
      (wrong : List String) (password : String) (w : World)
      → AllWrong x c.password_hash wrong
      → find (belongs_to user_id) w.credentials ≡ some c
      → Returns
          (λ r w'. r.authenticated ≡ (
            ltb (c.failed_login_count + length wrong) x.settings.max_failed_login_attempts
            && verify_password x password c.password_hash))
          (authenticate x user_id password identifier context
            (some at)
            (attempt_all x user_id identifier context at wrong w))
  attempt_all-lockout wrong password w bad e =
      subst
        (λ b.
          Returns (λ r w'. r.authenticated ≡ b)
            (authenticate x user_id password identifier context (some at)
              (attempt_all x user_id identifier context at wrong w)))
        (ap (admits x password at) (find-attempt_all wrong 0 w bad (e ∙ ap some (sym guessed_none)))
          ∙ admits-guessed password (0 + length wrong)
          ∙ ap
              (λ n.
                ltb (c.failed_login_count + n) x.settings.max_failed_login_attempts
                && verify_password x password c.password_hash)
              (omega arith))
        (authenticate-admits x user_id password identifier context (some at)
          (attempt_all x user_id identifier context at wrong w))

  -- What is stored after wrong passwords in a row, at one time, on an open credential: the failures
  -- are counted up to the limit, and at the limit the credential is locked until the lockout period
  -- is over.
  pub attempt_all-guessed :
      (wrong : List String) (w : World)
      → AllWrong x c.password_hash wrong
      → find (belongs_to user_id) w.credentials ≡ some c
      → find (belongs_to user_id) (attempt_all x user_id identifier context at wrong w).credentials
        ≡ some (guessed x.settings at (length wrong) c)
  attempt_all-guessed wrong w bad e =
      find-attempt_all wrong 0 w bad (e ∙ ap some (sym guessed_none))
      ∙ ap (λ n. some (guessed x.settings at n c)) (omega arith)

module _ (x : External) (user_id : ℕ) (identifier : String) (context : RequestContext) where
  -- A lock that has expired clears no failures: while the count of an active credential is still at
  -- the limit, one wrong password locks it again, from that moment for the whole period.
  pub authenticate-relock :
      (password : String) (at : ℕ) (c : AuthCredential) (w : World)
      → find (belongs_to user_id) w.credentials ≡ some c
      → c.is_active ≡ true
      → lock_has_expired c (some at) at ≡ true
      → x.settings.max_failed_login_attempts ≤ c.failed_login_count
      → verify_password x password c.password_hash ≡ false
      → find
          (belongs_to user_id)
          (authenticate x user_id password identifier context (some at) w).1.credentials
        ≡ some (record c {
          failed_login_count = c.failed_login_count + 1;
          is_locked = true;
          locked_until = some (at + minutes x.settings.login_lockout_minutes);
        })
  unfolding can_authenticate lock_has_expired
  authenticate-relock password at c w e active expired full wrong =
      Returns-world (FindsAfter x user_id password at w)
        (authenticate x user_id password identifier context (some at) w)
        (authenticate-FindsAfter x user_id password identifier context (some at) w)
      ∙ ap (Option.map (after_attempt x password at)) e
      ∙ ground arith
