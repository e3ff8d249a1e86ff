-- ===== src/Core/Severity.antt =====
-- The severities of security events of app/core/constants.py.
use buildos_auth_service.Prelude.{String}

abbrev pub info : String
info = "info"

abbrev pub warning : String
warning = "warning"

abbrev pub error : String
error = "error"

abbrev pub critical : String
critical = "critical"
