-- ===== src/Core/TokenType.antt =====
-- The token types of app/core/constants.py.
use buildos_auth_service.Prelude.{String}

abbrev pub access : String
access = "access"

abbrev pub refresh : String
refresh = "refresh"

abbrev pub bearer : String
bearer = "bearer"
