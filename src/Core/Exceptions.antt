-- ===== src/Core/Exceptions.antt =====
-- app/core/exceptions.py: the exceptions, each with its message, and the classes that handlers
-- name. `integrity_error` and `pending_rollback` are the database's (sqlalchemy.exc), and `http` is FastAPI's
-- HTTPException with its status code and detail.
use buildos_auth_service.Prelude.{ℕ, String, Bool, true, false}

pub data Error : Type 0 where
  invalid_credentials : String → Error
  account_locked : String → Error
  credential_inactive : String → Error
  user_not_found : String → Error
  invalid_token : String → Error
  expired_token : String → Error
  revoked_token : String → Error
  password_reset : String → Error
  integration : String → Error
  user_already_exists : String → Error
  validation : String → Error
  user_deleted : String → Error
  idempotency_conflict : String → Error
  service_unavailable : String → Error
  integrity_error : Error
  pending_rollback : Error
  http : ℕ → String → Error

-- `except AuthenticationError`
unfoldable pub is_authentication_error : Error → Bool
is_authentication_error (invalid_credentials m) = true
is_authentication_error (account_locked m) = true
is_authentication_error (credential_inactive m) = true
is_authentication_error _ = false

-- `except IntegrationError`
unfoldable pub is_integration_error : Error → Bool
is_integration_error (integration m) = true
is_integration_error (validation m) = true
is_integration_error (user_deleted m) = true
is_integration_error (idempotency_conflict m) = true
is_integration_error (service_unavailable m) = true
is_integration_error _ = false
