-- ===== src/Core/Config/Production.antt =====
-- `Settings.validate_production_settings`. The lower case of a text is Unicode's, a parameter.
use text.Mathlib.Text.{starts_with}
use buildos_auth_service.Prelude.{
  ◌≡◌, String, Bool, not, ◌&&◌, Option, none, some, str_eq, arith, if◌then◌else◌, is_found,
}
use buildos_auth_service.Core.Config.{Settings}

abbrev pub placeholder : String
placeholder = "change-me-in-production"

-- `url.lower().startswith("https://")`
abbrev pub is_https : (String → String) → String → Bool
is_https lower url = starts_with (lower url) "https://"

abbrev pub is_production : (String → String) → Settings → Bool
is_production lower s = str_eq (lower s.environment) "production"

-- The message of the ValueError, if one is raised.
unfoldable pub validate_production_settings : (String → String) → Settings → Option String
validate_production_settings lower s =
    if not (is_production lower s)
    then none
    else if str_eq s.internal_api_key placeholder
    then some "Default internal_api_key used in production!"
    else if str_eq s.user_service_api_key placeholder
    then some "Default user_service_api_key used in production!"
    else if str_eq s.session_service_api_key placeholder
    then some "Default session_service_api_key used in production!"
    else if not (is_https lower s.user_service_url)
    then some "user_service_url must use HTTPS in production"
    else if not (is_https lower s.session_service_url)
    then some "session_service_url must use HTTPS in production"
    else none

-- The settings that are safe in production as the validator means it.
abbrev pub is_secure : (String → String) → Settings → Bool
is_secure lower s =
    not (str_eq s.internal_api_key placeholder)
    && not (str_eq s.user_service_api_key placeholder)
    && not (str_eq s.session_service_api_key placeholder)
    && is_https lower s.user_service_url
    && is_https lower s.session_service_url

-- The settings are rejected exactly if the environment is production, in any case of letters, and
-- one of the three API keys is the placeholder or one of the two service URLs is not an HTTPS URL.
pub validate_production_settings-is_secure :
    (lower : String → String) (s : Settings)
    → is_found (validate_production_settings lower s)
      ≡ (is_production lower s && not (is_secure lower s))
unfolding validate_production_settings
validate_production_settings-is_secure lower s = ground arith

-- The settings other than the JWT key decide: the key may be any text, the placeholder too.
pub validate_production_settings-any_jwt_key :
    (lower : String → String) (s : Settings) (key : String)
    → validate_production_settings lower (record s { jwt_secret_key = key })
      ≡ validate_production_settings lower s
unfolding validate_production_settings
validate_production_settings-any_jwt_key lower s key = ground arith
