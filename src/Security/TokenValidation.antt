-- ===== src/Security/TokenValidation.antt =====
-- app/security/token_validation.py. `jwt.decode` reads the system clock.
pub mod RoundTrip
use buildos_auth_service.Prelude.{String, Bool, true, not, Option, none, some, [], ◌∷◌, str_eq}
use buildos_auth_service.Core.TokenType
use buildos_auth_service.Core.Exceptions.{invalid_token, expired_token}
use buildos_auth_service.External.{
  External, Claims, ClaimValue, text, get_claim, DecodeOptions, Decoded, payload, expired_signature,
  invalid_jwt,
}
use buildos_auth_service.Database.{
  Result, ok, err, Action, gets, lift, raise_if, or_raise, ◌>>=◌, ◌>>◌, return,
}

abbrev pub decode_options : External → DecodeOptions
decode_options x = record {
  key = x.settings.jwt_secret_key;
  algorithm = x.settings.jwt_algorithm;
  issuer = x.settings.jwt_issuer;
  audience = x.settings.jwt_audience;
  required = "sub" ∷ "iss" ∷ "aud" ∷ "iat" ∷ "exp" ∷ "jti" ∷ "token_type" ∷ [];
}

-- `isinstance(value, str)`
abbrev pub as_text : Option ClaimValue → Option String
as_text (some (text s)) = some s
as_text _ = none

-- The `try`/`except` around `jwt.decode`.
abbrev pub payload_or : String → String → Decoded → Result Claims
payload_or expired invalid (payload p) = ok p
payload_or expired invalid expired_signature = err (expired_token expired)
payload_or expired invalid invalid_jwt = err (invalid_token invalid)

-- `payload.get("token_type") != token_type`
abbrev pub is_not_text : String → Option ClaimValue → Bool
is_not_text s (some (text t)) = not (str_eq t s)
is_not_text s _ = true

-- The checks after `jwt.decode`, the same in both functions.
unfoldable pub check_payload : External → String → Claims → Action Claims
check_payload x token_type p = do
  raise_if (is_not_text token_type (get_claim "token_type" p)) (invalid_token "Invalid token type.")
  subject ← or_raise (as_text (get_claim "sub" p)) (invalid_token "Token subject is invalid.")
  or_raise (x.parse_uuid subject) (invalid_token "Token subject is invalid.")
  return p

unfoldable pub validate_access_token : External → String → Action Claims
unfolding check_payload
validate_access_token x token = do
  clock ← gets (λ w. w.clock)
  p ← lift (
      payload_or "Access token has expired." "Invalid access token."
        (x.jwt_decode clock token (decode_options x)))
  check_payload x TokenType.access p

unfoldable pub validate_refresh_token : External → String → Action Claims
unfolding check_payload
validate_refresh_token x token = do
  clock ← gets (λ w. w.clock)
  p ← lift (
      payload_or "Refresh token has expired." "Invalid refresh token."
        (x.jwt_decode clock token (decode_options x)))
  check_payload x TokenType.refresh p
