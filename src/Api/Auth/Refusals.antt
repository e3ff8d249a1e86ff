-- ===== src/Api/Auth/Refusals.antt =====
-- What a login request is answered where it is refused before the password is checked.
use buildos_auth_service.Prelude.{ℕ, ◌≡◌, String, false, Option, some, str_eq, arith, if◌then◌else◌}
use buildos_auth_service.Core.Exceptions.{http}
use buildos_auth_service.External.{External}
use buildos_auth_service.Database.{World, ok, err}
use buildos_auth_service.Services.UserDirectory.{UserDirectory, UserStatus}
use buildos_auth_service.Services.Login.{is_allowed_status}
use buildos_auth_service.Api.Auth.{CreateSession, LoginRequest, login}

module _ (x : External) (users : UserDirectory) (create_session : CreateSession)
    (payload : LoginRequest) (ip_address user_agent : Option String) (w : World) where
  -- A login to an account whose status is not allowed is answered as a wrong password is, with 401,
  -- except for a deleted account, which is answered with 503 and that the user service is
  -- unavailable.
  pub login-status :
      (user_id : ℕ) (s : UserStatus)
      → users.resolve_identifier payload.identifier ≡ ok (some user_id)
      → users.get_user_status user_id ≡ ok s
      → is_allowed_status s.status ≡ false
      → (login x users create_session payload ip_address user_agent w).0
        ≡ err (
            if str_eq s.status "deleted"
            then http 503 "User identity service is unavailable."
            else http 401 "Invalid credentials.")
  unfolding login is_allowed_status
  login-status user_id s resolved known refused = ground (arith, resolved, known, refused)
