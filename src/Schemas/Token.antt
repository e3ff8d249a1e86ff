-- ===== src/Schemas/Token.antt =====
-- app/schemas/token.py: the refresh token of `TokenRefreshRequest` and `TokenRevokeRequest`, and the
-- responses.
use buildos_auth_service.Prelude.{ℕ, String, Bool, Option}
use buildos_auth_service.Schemas.Limits.{has_length}

unfoldable pub accepts_refresh_token : String → Bool
accepts_refresh_token refresh_token = has_length 1 4096 refresh_token

pub record TokenRefreshResponse : Type 0 where
  pub access_token : String
  pub refresh_token : String
  pub token_type : String

pub record TokenRevokeResponse : Type 0 where
  pub revoked : Bool

pub record TokenMeResponse : Type 0 where
  pub authenticated : Bool
  pub user_id : ℕ
  pub context_type : String
  pub organization_id : Option ℕ
  pub membership_id : Option ℕ
