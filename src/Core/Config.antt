-- ===== src/Core/Config.antt =====
-- app/core/config.py: the settings that the modelled code reads, their check in production, and
-- `timedelta`. Times are whole microseconds since the epoch; the settings are counts and
-- natural numbers here, where the source has int.
pub mod Production
use buildos_auth_service.Prelude.{ℕ, ◌*◌, String}

pub record Settings : Type 0 where
  pub service_name : String
  pub environment : String
  pub jwt_secret_key : String
  pub jwt_algorithm : String
  pub jwt_issuer : String
  pub jwt_audience : String
  pub access_token_expire_minutes : ℕ
  pub refresh_token_expire_days : ℕ
  pub max_failed_login_attempts : ℕ
  pub login_lockout_minutes : ℕ
  pub login_rate_limit_window_minutes : ℕ
  pub internal_api_key : String
  pub password_reset_expire_minutes : ℕ
  pub user_service_url : String
  pub user_service_api_key : String
  pub user_service_id : String
  pub session_service_url : String
  pub session_service_api_key : String
  pub session_service_id : String

-- `timedelta(minutes=n)`
abbrev pub minutes : ℕ → ℕ
minutes n = n * 60000000

-- `timedelta(days=n)`
abbrev pub days : ℕ → ℕ
days n = n * 86400000000
