-- ===== src/Api/Auth/Rollback.antt =====
-- What is left in the tables of a request that raises, and of login requests with wrong passwords.
use buildos_auth_service.Prelude.{
  ℕ, ◌≡◌, String, true, false, Option, some, List, [], ◌∷◌, find, ap, arith, ◌∙◌,
}
use buildos_auth_service.Core.Exceptions.{Error, http, invalid_credentials}
use buildos_auth_service.Models.{AuthCredential}
use buildos_auth_service.External.{External}
use buildos_auth_service.Database.{World, Action, ok, err, with_session}
use buildos_auth_service.Repositories.Credential.{belongs_to}
use buildos_auth_service.Security.PasswordHashing.{verify_password}
use buildos_auth_service.Services.Context.{RequestContext}
use buildos_auth_service.Services.UserDirectory.{UserDirectory, UserStatus}
use buildos_auth_service.Services.Login as LoginService
use buildos_auth_service.Services.Login.{is_allowed_status}
use buildos_auth_service.Services.Authentication.{authenticate}
use buildos_auth_service.Services.Authentication.Lockout.{AllWrong}
use buildos_auth_service.Api.Auth.{CreateSession, login, login_handler}

-- Every table holds the rows that it held.
pub record SameTables (w w' : World) : Type 0 where
  pub credentials : w'.credentials ≡ w.credentials
  pub login_attempts : w'.login_attempts ≡ w.login_attempts
  pub auth_events : w'.auth_events ≡ w.auth_events
  pub security_events : w'.security_events ≡ w.security_events
  pub refresh_tokens : w'.refresh_tokens ≡ w.refresh_tokens
  pub password_resets : w'.password_resets ≡ w.password_resets

-- A request that raises leaves every table as it was.
pub with_session-SameTables {ℓ} :
    {A : Type ℓ} (handler : Action A) (w : World) (e : Error)
    → (with_session handler w).0 ≡ err e
    → SameTables w (with_session handler w).1
unfolding with_session
with_session-SameTables handler w e failed = ground arith

SameTables-trans : {u v w : World} → SameTables u v → SameTables v w → SameTables u w
SameTables-trans first second = ground arith

-- The user directory knows the identifier as an account that may log in.
pub record Resolves (users : UserDirectory) (identifier : String) (user_id : ℕ) : Type 0 where
  pub status : UserStatus
  pub resolved : users.resolve_identifier identifier ≡ ok (some user_id)
  pub known : users.get_user_status user_id ≡ ok status
  pub allowed : is_allowed_status status.status ≡ true

module _ (x : External) (users : UserDirectory) where
  login-wrong_password :
      (identifier password : String) (context : RequestContext) (user_id : ℕ) (c : AuthCredential)
      (w : World)
      → Resolves users identifier user_id
      → find (belongs_to user_id) w.credentials ≡ some c
      → verify_password x password c.password_hash ≡ false
      → (LoginService.login x users identifier password context w).0
        ≡ err (invalid_credentials "Invalid credentials.")
  unfolding LoginService.login authenticate
  login-wrong_password identifier password context user_id c w r e wrong =
      ground (arith, r.resolved, r.known, r.allowed)

-- A login request with one password, from one address.
abbrev pub guess :
    External
    → UserDirectory
    → CreateSession
    → String
    → Option ℕ
    → Option String
    → Option String
    → String
    → World
    → World
guess x users create_session identifier device_id ip_address user_agent password w =
    (login x users create_session
      (record { identifier = identifier; password = password; device_id = device_id }) ip_address
      user_agent w).1

-- One request after the other.
abbrev pub guess_all :
    External
    → UserDirectory
    → CreateSession
    → String
    → Option ℕ
    → Option String
    → Option String
    → List String
    → World
    → World
guess_all x users create_session identifier device_id ip_address user_agent [] w = w
guess_all x users create_session identifier device_id ip_address user_agent (p ∷ ps) w =
    guess_all x users create_session identifier device_id ip_address user_agent ps
      (guess x users create_session identifier device_id ip_address user_agent p w)

module _ (x : External) (users : UserDirectory) (create_session : CreateSession)
    (identifier : String) (device_id : Option ℕ) (ip_address user_agent : Option String)
    (user_id : ℕ) (c : AuthCredential) (r : Resolves users identifier user_id) where
  -- For an account that may log in and has a credential, a login request with a wrong password is
  -- answered with status 401.
  pub login_unauthorized :
      (password : String) (w : World)
      → find (belongs_to user_id) w.credentials ≡ some c
      → verify_password x password c.password_hash ≡ false
      → (login x users create_session
          (record { identifier = identifier; password = password; device_id = device_id })
          ip_address
          user_agent
          w).0
        ≡ err (http 401 "Invalid credentials.")
  unfolding login authenticate
  login_unauthorized password w e wrong = ground (arith, r.resolved, r.known, r.allowed)

  -- For an account that may log in and has a credential, any number of login requests with wrong
  -- passwords leaves every table as it was: no failure is counted or recorded, and the credential is
  -- not locked.
  pub guess_all-SameTables :
      (passwords : List String) (w : World)
      → find (belongs_to user_id) w.credentials ≡ some c
      → AllWrong x c.password_hash passwords
      → SameTables w
          (guess_all x users create_session identifier device_id ip_address user_agent passwords w)
  unfolding login
  guess_all-SameTables [] w e wrong = ground arith
  guess_all-SameTables (p ∷ ps) w e wrong =
      let w' = guess x users create_session identifier device_id ip_address user_agent p w in
      let once : SameTables w w' =
        with_session-SameTables
          (login_handler x users create_session
            (record { identifier = identifier; password = p; device_id = device_id }) ip_address
            user_agent)
          w (http 401 "Invalid credentials.") (login_unauthorized p w e wrong.0) in
      SameTables-trans once
        (guess_all-SameTables ps w' (ap (find (belongs_to user_id)) once.credentials ∙ e) wrong.1)
