-- ===== src/Core/Event.antt =====
-- The event types of app/core/constants.py.
use buildos_auth_service.Prelude.{String}

abbrev pub login_success : String
login_success = "LOGIN_SUCCESS"

abbrev pub login_failure : String
login_failure = "LOGIN_FAILURE"

abbrev pub logout : String
logout = "LOGOUT"

abbrev pub logout_all : String
logout_all = "LOGOUT_ALL"

abbrev pub token_refresh : String
token_refresh = "TOKEN_REFRESH"

abbrev pub token_revoked : String
token_revoked = "TOKEN_REVOKED"

abbrev pub account_locked : String
account_locked = "ACCOUNT_LOCKED"

abbrev pub account_unlocked : String
account_unlocked = "ACCOUNT_UNLOCKED"

abbrev pub password_changed : String
password_changed = "PASSWORD_CHANGED"

abbrev pub password_reset_requested : String
password_reset_requested = "PASSWORD_RESET_REQUESTED"

abbrev pub password_reset_completed : String
password_reset_completed = "PASSWORD_RESET_COMPLETED"

-- Written as a literal by the registration service.
abbrev pub registration_completed : String
registration_completed = "REGISTRATION_COMPLETED"
