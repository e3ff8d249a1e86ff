-- ===== src/Security/RateLimiting.antt =====
-- app/security/rate_limiting.py
use buildos_auth_service.Prelude.{ℕ, ◌+◌, ◌-◌, Bool, Option, leb, or_default}
use buildos_auth_service.Core.Config.{Settings, minutes}

-- Python's datetime does not go below year 1; times here begin at the epoch, and stop there.
unfoldable pub get_attempt_window_start : Settings → Option ℕ → ℕ → ℕ
get_attempt_window_start settings now clock =
    or_default now clock - minutes settings.login_rate_limit_window_minutes

unfoldable pub is_login_rate_limited : Settings → ℕ → Bool
is_login_rate_limited settings failed_attempts =
    leb settings.max_failed_login_attempts failed_attempts

unfoldable pub should_lock_account : Settings → ℕ → Bool
unfolding is_login_rate_limited
should_lock_account settings failed_attempts = is_login_rate_limited settings failed_attempts

unfoldable pub get_lock_expiration : Settings → Option ℕ → ℕ → ℕ
get_lock_expiration settings now clock =
    or_default now clock + minutes settings.login_lockout_minutes
