-- ===== src/Tests/Settings.antt =====
-- The theorems on settings, schemas and internal callers, at concrete values.
use buildos_auth_service.Prelude.{
  arith, ◌≡◌, refl, String, true, false, not, ◌&&◌, ◌==◌, none, some, is_found,
}
use buildos_auth_service.Core.TokenType
use buildos_auth_service.Core.Config.{Settings}
use buildos_auth_service.Core.Config.Production.{
  is_production, is_secure, validate_production_settings, validate_production_settings-is_secure,
}
use buildos_auth_service.Api.Auth.{LoginRequest}
use buildos_auth_service.Api.Register.{RegisterRequest}
use buildos_auth_service.Api.Status.{UserStatusUpdateRequest, update_user_status}
use buildos_auth_service.Api.Status.Guard.{
  is_internal, IsApplied, IsRefused, update_user_status-guard,
}
use buildos_auth_service.Schemas.Auth.{accepts_register, accepts_login}
use buildos_auth_service.Schemas.Password.{accepts_change_password}
use buildos_auth_service.Schemas.Passwords.{accepts_register-long_password}
use buildos_auth_service.Tests.Sample.{sample, sample_settings, stored, strokes}

abbrev in_production : Settings
in_production = record sample_settings { environment = "production" }

validate_production_settings-is_secure_example :
    is_found (validate_production_settings (λ s. s) in_production)
    ≡ (is_production (λ s. s) in_production && not (is_secure (λ s. s) in_production))
validate_production_settings-is_secure_example =
    validate_production_settings-is_secure (λ s. s) in_production

abbrev suspension : UserStatusUpdateRequest
suspension = record { user_id = 7; status = "suspended"; is_active = false }

update_user_status-guard_example :
    ((is_internal (sample TokenType.refresh) (some "internal") (some "users") && (7 == 7)) ≡ true
      → IsApplied 7 suspension stored (
          update_user_status
            (sample TokenType.refresh)
            (some "internal")
            (some "users")
            7
            suspension
            stored))
    × ((is_internal (sample TokenType.refresh) (some "internal") (some "users") && (7 == 7)) ≡ false
        → IsRefused stored (
            update_user_status
              (sample TokenType.refresh)
              (some "internal")
              (some "users")
              7
              suspension
              stored))
update_user_status-guard_example =
    update_user_status-guard (sample TokenType.refresh) 7 suspension (some "internal")
      (some "users") stored

abbrev long_password : String
long_password = strokes 130

abbrev registration : RegisterRequest
registration = record {
  fields = record {
    email = some "ann@example.org";
    phone = none;
    username = none;
    first_name = none;
    last_name = none;
    display_name = none;
    country = none;
    timezone = "Africa/Lagos";
    language = "en";
  };
  password = long_password;
}

abbrev credentials : LoginRequest
credentials = record { identifier = "ann"; password = "right"; device_id = none }

accepts_register-long_password_example :
    (accepts_login (record credentials { password = long_password }) ≡ true)
    × (accepts_change_password long_password "new password" ≡ false)
unfolding accepts_register strokes accepts_login
accepts_register-long_password_example =
    accepts_register-long_password registration credentials "new password" refl refl (omega arith)
