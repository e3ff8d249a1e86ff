-- ===== src/Services/Logout.antt =====
-- app/services/logout_service.py
use buildos_auth_service.Prelude.{String, Bool, true, Option, none}
use buildos_auth_service.External.{External}
use buildos_auth_service.Database.{Action, ◌>>◌, return}
use buildos_auth_service.Services.Token.{revoke}

-- The result is the field `logged_out`.
unfoldable pub logout : External → String → (ip_address user_agent : Option String) → Action Bool
unfolding revoke
logout x refresh_token ip_address user_agent = do
  revoke x refresh_token ip_address user_agent none
  return true
