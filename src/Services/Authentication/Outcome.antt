-- ===== src/Services/Authentication/Outcome.antt =====
-- What an attempt decides: `AuthenticationService.authenticate` against the state of the credential
-- and the password.
use buildos_auth_service.Prelude.{
  ℕ, ◌+◌, ◌≡◌, String, Bool, false, ◌&&◌, Option, none, some, find, select, length, or_default,
  arith, select-append, length-append, if◌then◌else◌,
}
use buildos_auth_service.Models.{AuthCredential}
use buildos_auth_service.External.{External}
use buildos_auth_service.Database.{World, Returns}
use buildos_auth_service.Repositories.Credential.{belongs_to}
use buildos_auth_service.Security.Authentication.{can_authenticate}
use buildos_auth_service.Security.PasswordHashing.{verify_password}
use buildos_auth_service.Services.Context.{RequestContext}
use buildos_auth_service.Services.Authentication.{authenticate, check_credential}

-- The credential may be used at the time, and the password fits it.
abbrev pub admits : External → String → ℕ → Option AuthCredential → Bool
admits x password at none = false
admits x password at (some c) =
    can_authenticate c (some at) at && verify_password x password c.password_hash

module _ (x : External) (user_id : ℕ) (password identifier : String)
    (context : RequestContext) where
  check_credential-admits :
      (at : ℕ) (found : Option AuthCredential) (w : World)
      → Returns
          (λ r w'. r.authenticated ≡ admits x password at found)
          (check_credential x user_id password identifier context at found w)
  unfolding check_credential can_authenticate
  check_credential-admits at none w = ground arith
  check_credential-admits at (some c) w = ground arith

  -- An attempt never raises, and authenticates exactly if the user has a credential that is active
  -- and not locked at the time of the attempt, and whose hash the password verifies.
  pub authenticate-admits :
      (now : Option ℕ) (w : World)
      → Returns
          (λ r w'.
            r.authenticated
            ≡ admits x password (or_default now w.clock) (find (belongs_to user_id) w.credentials))
          (authenticate x user_id password identifier context now w)
  unfolding authenticate
  authenticate-admits now w =
      check_credential-admits (or_default now w.clock) (find (belongs_to user_id) w.credentials) w

  -- What one attempt adds to the records, and what it leaves alone.
  abbrev pub OneRecord : Bool → World → World → Type 0
  OneRecord success w w' =
      (length w'.login_attempts ≡ length w.login_attempts + 1)
      × (length (select (λ a. a.successful) w'.login_attempts)
          ≡ length (select (λ a. a.successful) w.login_attempts) + (if success then 1 else 0))
      × (length w'.auth_events + length w'.security_events
          ≡ length w.auth_events + length w.security_events + 1)
      × (w'.refresh_tokens ≡ w.refresh_tokens)
      × (w'.password_resets ≡ w.password_resets)

  check_credential-OneRecord :
      (at : ℕ) (found : Option AuthCredential) (w : World)
      → Returns
          (λ r w'. OneRecord r.authenticated w w')
          (check_credential x user_id password identifier context at found w)
  unfolding check_credential select
  check_credential-OneRecord at none w = grind (arith, select-append, length-append)
  check_credential-OneRecord at (some c) w = grind (arith, select-append, length-append)

  -- An attempt leaves exactly one login attempt, with the outcome it had, and one audit or security
  -- event; refresh tokens and password resets stay as they were.
  pub authenticate-OneRecord :
      (now : Option ℕ) (w : World)
      → Returns
          (λ r w'. OneRecord r.authenticated w w')
          (authenticate x user_id password identifier context now w)
  unfolding authenticate
  authenticate-OneRecord now w =
      check_credential-OneRecord (or_default now w.clock) (find (belongs_to user_id) w.credentials)
        w
