-- ===== src/Schemas/Auth.antt =====
-- app/schemas/auth.py
use buildos_auth_service.Prelude.{Bool, ◌&&◌}
use buildos_auth_service.Api.Auth.{LoginRequest}
use buildos_auth_service.Api.Register.{RegisterRequest}
use buildos_auth_service.Schemas.Limits.{has_length, has_length_if}

unfoldable pub accepts_register : RegisterRequest → Bool
accepts_register r =
    has_length_if 0 255 r.fields.email
    && has_length_if 0 30 r.fields.phone
    && has_length_if 0 50 r.fields.username
    && has_length 8 1024 r.password
    && has_length_if 1 100 r.fields.first_name
    && has_length_if 1 100 r.fields.last_name
    && has_length_if 0 100 r.fields.display_name
    && has_length_if 2 2 r.fields.country
    && has_length 0 100 r.fields.timezone
    && has_length 0 20 r.fields.language

unfoldable pub accepts_login : LoginRequest → Bool
accepts_login r = has_length 1 320 r.identifier && has_length 1 1024 r.password
