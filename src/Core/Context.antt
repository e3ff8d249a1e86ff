-- ===== src/Core/Context.antt =====
-- The authentication contexts of app/core/constants.py.
use buildos_auth_service.Prelude.{String}

abbrev pub personal : String
personal = "PERSONAL"

abbrev pub organization : String
organization = "ORGANIZATION"
