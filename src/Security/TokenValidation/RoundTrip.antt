-- ===== src/Security/TokenValidation/RoundTrip.antt =====
-- Signing (app/security/token_signing.py) and validation (app/security/token_validation.py) together.
use mathlib.Core.Option
use buildos_auth_service.Prelude.{
  ℕ, ◌*◌, ◌/◌, ◌<◌, ◌≤◌, ◌≡◌, refl, String, Option, some, map, arith, str_eq, if◌then◌else◌,
}
use buildos_auth_service.Core.TokenType
use buildos_auth_service.Core.Exceptions.{invalid_token}
use buildos_auth_service.External.{
  External, IsLawful, Decodes, Claims, text, get_claim, on_the_wire, payload,
}
use buildos_auth_service.Database.{World, ok, err}
use buildos_auth_service.Security.TokenSigning.{token_payload}
use buildos_auth_service.Security.TokenValidation.{
  decode_options, check_payload, validate_access_token, validate_refresh_token,
}

module _ (x : External) (token_type : String) (user_id : ℕ) (context_type : String)
    (organization_id membership_id : Option ℕ) (issued expires d : ℕ) where
  abbrev pub claims : Claims
  claims =
      token_payload x token_type user_id context_type organization_id membership_id issued expires d

  abbrev pub signed : String
  signed = x.jwt_encode claims x.settings.jwt_secret_key x.settings.jwt_algorithm

  -- What comes back of the claims of a signed token.
  abbrev pub received : Claims
  received = map on_the_wire claims

  pub get_claim-sub : get_claim "sub" received ≡ some (text (x.uuid_text user_id))
  unfolding token_payload get_claim
  get_claim-sub = refl

  pub get_claim-context_type : get_claim "context_type" received ≡ some (text context_type)
  unfolding token_payload get_claim
  get_claim-context_type = refl

  pub get_claim-organization_id :
      get_claim "organization_id" received
      ≡ Option.map (λ id. text (x.uuid_text id)) organization_id
  unfolding token_payload get_claim
  get_claim-organization_id = ground arith

  pub get_claim-membership_id :
      get_claim "membership_id" received ≡ Option.map (λ id. text (x.uuid_text id)) membership_id
  unfolding token_payload get_claim
  get_claim-membership_id = ground arith

module _ (x : External) (law : IsLawful x) (token_type : String) (user_id : ℕ)
    (context_type : String) (organization_id membership_id : Option ℕ) (issued expires d : ℕ)
    (w : World)
    (decodes : Decodes x
      (claims x token_type user_id context_type organization_id membership_id issued expires d))
    (past : issued ≤ w.clock) (live : w.clock < expires / 1000000 * 1000000) where
  abbrev its_token : String
  its_token =
      signed x token_type user_id context_type organization_id membership_id issued expires d

  abbrev its_claims : Claims
  its_claims =
      received x token_type user_id context_type organization_id membership_id issued expires d

  decode-signed : x.jwt_decode w.clock its_token (decode_options x) ≡ payload its_claims
  unfolding token_payload get_claim
  decode-signed =
      decodes w.clock issued expires (decode_options x) refl refl refl refl refl past live

  -- A signed token passes the checks of its own type, and fails those of any other type.
  check_payload-received :
      (expected : String)
      → check_payload x expected its_claims w ≡ (
          if str_eq token_type expected
          then (ok its_claims, w)
          else (err (invalid_token "Invalid token type."), w))
  unfolding check_payload token_payload get_claim
  check_payload-received expected = ground (arith, law.parse_uuid-uuid_text user_id)

  -- A token that the service signed is accepted by the refresh validation, from its issue until it
  -- expires and with its claims, exactly if it was signed as a refresh token; a token of any other
  -- type is refused as invalid. It needs that pyjwt decodes the payload and that UUIDs read back.
  pub validate_refresh_token-signed : validate_refresh_token x its_token w ≡ (
      if str_eq token_type TokenType.refresh
      then (ok its_claims, w)
      else (err (invalid_token "Invalid token type."), w))
  unfolding validate_refresh_token
  validate_refresh_token-signed =
      ground (arith, decode-signed, check_payload-received TokenType.refresh)

  -- A token that the service signed is accepted by the access validation, from its issue until it
  -- expires and with its claims, exactly if it was signed as an access token; a token of any other
  -- type is refused as invalid. It needs that pyjwt decodes the payload and that UUIDs read back.
  pub validate_access_token-signed : validate_access_token x its_token w ≡ (
      if str_eq token_type TokenType.access
      then (ok its_claims, w)
      else (err (invalid_token "Invalid token type."), w))
  unfolding validate_access_token
  validate_access_token-signed =
      ground (arith, decode-signed, check_payload-received TokenType.access)
