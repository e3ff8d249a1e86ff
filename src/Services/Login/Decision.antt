-- ===== src/Services/Login/Decision.antt =====
-- Who gets past `LoginService.login`.
use buildos_auth_service.Prelude.{
  ℕ, ◌≡◌, String, Bool, false, ◌&&◌, Option, none, some, find, arith,
}
use buildos_auth_service.External.{External}
use buildos_auth_service.Database.{World, Result, ok, err, is_ok}
use buildos_auth_service.Repositories.Credential.{belongs_to}
use buildos_auth_service.Security.Authentication.{can_authenticate}
use buildos_auth_service.Services.Context.{RequestContext}
use buildos_auth_service.Services.UserDirectory.{UserDirectory, UserStatus}
use buildos_auth_service.Services.Authentication.{authenticate}
use buildos_auth_service.Services.Authentication.Outcome.{admits}
use buildos_auth_service.Services.Login.{login, is_allowed_status}

-- The specification, by the answers of the user directory.
abbrev pub status_admits : Result UserStatus → Bool
status_admits (ok s) = is_allowed_status s.status
status_admits (err e) = false

abbrev pub login_admits : External → UserDirectory → String → World → Result (Option ℕ) → Bool
login_admits x users password w (ok (some user_id)) =
    status_admits (users.get_user_status user_id)
    && admits x password w.clock (find (belongs_to user_id) w.credentials)
login_admits x users password w (ok none) = false
login_admits x users password w (err e) = false

module _ (x : External) (users : UserDirectory) (identifier password : String)
    (context : RequestContext) (w : World) where
  -- A login returns exactly if the directory resolves the identifier to a user whose status is
  -- allowed, and that user's credential is active, not locked now and verified by the password.
  pub login-login_admits :
      is_ok (login x users identifier password context w).0
      ≡ login_admits x users password w (users.resolve_identifier identifier)
  unfolding login authenticate can_authenticate
  login-login_admits = ground arith
