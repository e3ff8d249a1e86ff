-- ===== src/Core/RateLimit.antt =====
-- app/core/rate_limit.py: the rates.
use buildos_auth_service.Prelude.{String}

abbrev pub register : String
register = "5/minute"

abbrev pub login : String
login = "10/minute"

abbrev pub password_reset : String
password_reset = "3/minute"

abbrev pub availability : String
availability = "30/minute"
