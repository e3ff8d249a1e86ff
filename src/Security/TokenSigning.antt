-- ===== src/Security/TokenSigning.antt =====
-- app/security/token_signing.py
use buildos_auth_service.Prelude.{ℕ, ◌+◌, String, Option, none, some, [], ◌∷◌, ◌++◌, or_default}
use buildos_auth_service.Core.TokenType
use buildos_auth_service.Core.Config.{minutes, days}
use buildos_auth_service.External.{External, Claims, text, datetime}
use buildos_auth_service.Database.{Action, gets, draw, ◌>>=◌, return}

-- `if value is not None: payload[name] = str(value)`
abbrev pub optional_claim : External → String → Option ℕ → Claims
optional_claim x name none = []
optional_claim x name (some id) = (name, text (x.uuid_text id)) ∷ []

-- The payload that both functions build.
unfoldable pub token_payload :
    External
    → (token_type : String) (user_id : ℕ) (context_type : String)
    → (organization_id membership_id : Option ℕ) (issued_at expires_at draw : ℕ) → Claims
token_payload x token_type user_id context_type organization_id membership_id issued_at expires_at
      d =
    (("sub", text (x.uuid_text user_id))
      ∷ ("iss", text x.settings.jwt_issuer)
      ∷ ("aud", text x.settings.jwt_audience)
      ∷ ("iat", datetime issued_at)
      ∷ ("exp", datetime expires_at)
      ∷ ("jti", text (x.uuid_text (x.uuid4 d)))
      ∷ ("token_type", text token_type)
      ∷ ("context_type", text context_type)
      ∷ [])
    ++ (optional_claim x "organization_id" organization_id
        ++ optional_claim x "membership_id" membership_id)

unfoldable pub create_access_token :
    External
    → (user_id : ℕ) (context_type : String) (organization_id membership_id now : Option ℕ)
    → Action String
unfolding token_payload
create_access_token x user_id context_type organization_id membership_id now = do
  issued_at ← gets (λ w. or_default now w.clock)
  let expires_at = issued_at + minutes x.settings.access_token_expire_minutes
  d ← draw
  return (
      x.jwt_encode
        (token_payload x TokenType.access user_id context_type organization_id membership_id
          issued_at expires_at d)
        x.settings.jwt_secret_key x.settings.jwt_algorithm)

unfoldable pub create_refresh_token :
    External
    → (user_id : ℕ) (context_type : String) (organization_id membership_id now : Option ℕ)
    → Action String
unfolding token_payload
create_refresh_token x user_id context_type organization_id membership_id now = do
  issued_at ← gets (λ w. or_default now w.clock)
  let expires_at = issued_at + days x.settings.refresh_token_expire_days
  d ← draw
  return (
      x.jwt_encode
        (token_payload x TokenType.refresh user_id context_type organization_id membership_id
          issued_at expires_at d)
        x.settings.jwt_secret_key x.settings.jwt_algorithm)
