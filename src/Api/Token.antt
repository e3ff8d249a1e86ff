-- ===== src/Api/Token.antt =====
-- app/api/v1/token.py. The response of `refresh_token` is the pair; that of `revoke_token` is the
-- field `revoked`.
use buildos_auth_service.Prelude.{String, Bool, true, Option, none}
use buildos_auth_service.External.{External}
use buildos_auth_service.Database.{Action, ◌>>◌, return, with_session}
use buildos_auth_service.Services.Token.{TokenPair, refresh, revoke}
use buildos_auth_service.Api.Errors.{catching, refresh_error, revoke_error}

unfoldable pub refresh_token :
    External → (token : String) → (ip_address user_agent : Option String) → Action TokenPair
unfolding refresh refresh_error with_session
refresh_token x token ip_address user_agent =
    with_session (catching refresh_error (refresh x token ip_address user_agent none))

unfoldable pub revoke_token :
    External → (token : String) → (ip_address user_agent : Option String) → Action Bool
unfolding revoke revoke_error with_session
revoke_token x token ip_address user_agent =
    with_session (do catching revoke_error (revoke x token ip_address user_agent none); return true)
