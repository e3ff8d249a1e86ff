-- ===== src/Api/Errors.antt =====
-- The `except` clauses of the handlers: which exception becomes which HTTPException.
pub mod Classes
use buildos_auth_service.Prelude.{if◌then◌else◌}
use buildos_auth_service.Core.Exceptions.{
  Error, is_authentication_error, is_integration_error, invalid_credentials, invalid_token,
  expired_token, revoked_token, password_reset, user_already_exists, idempotency_conflict,
  validation, http,
}
use buildos_auth_service.Database.{Action, Result, ok, err}

-- `try: action except …: raise …`
abbrev pub map_result {ℓ} : {A : Type ℓ} → (Error → Error) → Result A → Result A
map_result handler (ok a) = ok a
map_result handler (err e) = err (handler e)

abbrev pub catching {ℓ} : {A : Type ℓ} → (Error → Error) → Action A → Action A
catching handler action w = let (r, w') = action w in (map_result handler r, w')

unfoldable pub login_error : Error → Error
unfolding is_authentication_error is_integration_error
login_error e =
    if is_authentication_error e
    then http 401 "Invalid credentials."
    else if is_integration_error e
    then http 503 "User identity service is unavailable."
    else e

-- The clauses in their order: two subclasses of IntegrationError come before it.
unfoldable pub register_error : Error → Error
unfolding is_integration_error
register_error (user_already_exists m) = http 409 m
register_error (idempotency_conflict m) = http 409 m
register_error (validation m) = http 422 m
register_error e =
    if is_integration_error e then http 503 "User registration service is unavailable." else e

unfoldable pub session_error : Error → Error
unfolding is_integration_error
session_error e = if is_integration_error e then http 503 "Session service is unavailable." else e

unfoldable pub logout_error : Error → Error
logout_error (expired_token m) = http 401 "Refresh token has expired."
logout_error (revoked_token m) = http 401 "Refresh token has already been revoked."
logout_error (invalid_token m) = http 401 "Invalid refresh token."
logout_error e = e

unfoldable pub refresh_error : Error → Error
refresh_error (expired_token m) = http 401 "Refresh token has expired."
refresh_error (revoked_token m) = http 401 "Refresh token has been revoked."
refresh_error (invalid_token m) = http 401 "Invalid refresh token."
refresh_error e = e

unfoldable pub revoke_error : Error → Error
revoke_error (expired_token m) = http 401 "Refresh token has expired."
revoke_error (revoked_token m) = http 401 "Refresh token has already been revoked."
revoke_error (invalid_token m) = http 401 "Invalid refresh token."
revoke_error e = e

unfoldable pub change_password_error : Error → Error
change_password_error (invalid_credentials m) = http 401 m
change_password_error e = e

unfoldable pub confirm_reset_error : Error → Error
confirm_reset_error (password_reset m) = http 400 m
confirm_reset_error e = e

unfoldable pub access_token_error : Error → Error
access_token_error (expired_token m) = http 401 "Access token has expired."
access_token_error (invalid_token m) = http 401 "Invalid access token."
access_token_error e = e
