-- ===== src/Core/Failure.antt =====
-- The failure reasons of app/core/constants.py.
use buildos_auth_service.Prelude.{String}

abbrev pub invalid_credentials : String
invalid_credentials = "INVALID_CREDENTIALS"

abbrev pub credential_inactive : String
credential_inactive = "CREDENTIAL_INACTIVE"

abbrev pub account_locked : String
account_locked = "ACCOUNT_LOCKED"

abbrev pub account_disabled : String
account_disabled = "ACCOUNT_DISABLED"

abbrev pub user_not_found : String
user_not_found = "USER_NOT_FOUND"
