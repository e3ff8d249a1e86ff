-- ===== src/Services/Token.antt =====
-- app/services/token_service.py
pub mod Checks
pub mod Table
pub mod Rotation
pub mod Race
pub mod Revocation
pub mod Credentials
pub mod RoundTrip
use buildos_auth_service.Prelude.{ℕ, ◌+◌, String, not, Option, none, some, ◌==◌, leb, or_default}
use buildos_auth_service.Core.Context
use buildos_auth_service.Core.TokenType
use buildos_auth_service.Core.Event
use buildos_auth_service.Core.Config.{days}
use buildos_auth_service.Core.Exceptions.{invalid_token, expired_token, revoked_token}
use buildos_auth_service.Models.{RefreshToken}
use buildos_auth_service.External.{External, Claims, ClaimValue, text, null, get_claim}
use buildos_auth_service.Database.{
  Action, current_time, raise, raise_if, or_raise, ◌>>=◌, ◌>>◌, return,
}
use buildos_auth_service.Repositories.Token
use buildos_auth_service.Repositories.Event as Events
use buildos_auth_service.Security.TokenSigning.{create_access_token, create_refresh_token}
use buildos_auth_service.Security.TokenValidation.{validate_refresh_token, as_text}

pub record TokenPair : Type 0 where
  pub access_token : String
  pub refresh_token : String
  pub token_type : String

unfoldable pub hash_refresh_token : External → String → String
hash_refresh_token x token = x.sha256_hex token

unfoldable pub issue_tokens :
    External
    → (user_id : ℕ) (context_type : String) (organization_id membership_id now : Option ℕ)
    → Action TokenPair
unfolding create_access_token create_refresh_token Token.create hash_refresh_token
issue_tokens x user_id context_type organization_id membership_id now = do
  issued_at ← current_time now
  access_token ←
      create_access_token x user_id context_type organization_id membership_id (some issued_at)
  refresh_token ←
      create_refresh_token x user_id context_type organization_id membership_id (some issued_at)
  let expires_at = issued_at + days x.settings.refresh_token_expire_days
  Token.create x user_id (hash_refresh_token x refresh_token) expires_at context_type
      organization_id membership_id
  return (record {
    access_token = access_token;
    refresh_token = refresh_token;
    token_type = TokenType.bearer;
  })

-- `_optional_uuid_claim`, on the value of the claim. A JSON null is None.
unfoldable pub optional_uuid_claim : External → String → Option ClaimValue → Action (Option ℕ)
optional_uuid_claim x invalid none = return none
optional_uuid_claim x invalid (some null) = return none
optional_uuid_claim x invalid (some (text s)) = do
  id ← or_raise (x.parse_uuid s) (invalid_token invalid)
  return (some id)
optional_uuid_claim x invalid (some _) = raise (invalid_token invalid)

abbrev pub organization_claim : External → Claims → Action (Option ℕ)
organization_claim x p =
    optional_uuid_claim x "Token claim 'organization_id' is invalid."
      (get_claim "organization_id" p)

abbrev pub membership_claim : External → Claims → Action (Option ℕ)
membership_claim x p =
    optional_uuid_claim x "Token claim 'membership_id' is invalid." (get_claim "membership_id" p)

-- `payload.get("context_type", CONTEXT_PERSONAL)`
abbrev pub context_claim : Claims → ClaimValue
context_claim p = or_default (get_claim "context_type" p) (text Context.personal)

-- The subject of a validated token.
abbrev pub subject_id : External → Claims → Action ℕ
subject_id x p = do
  subject ← or_raise (as_text (get_claim "sub" p)) (invalid_token "Token subject is invalid.")
  or_raise (x.parse_uuid subject) (invalid_token "Token subject is invalid.")

-- `_get_replacement_token_id`
unfoldable pub get_replacement_token_id : External → String → Action ℕ
unfolding Token.get_by_token_hash hash_refresh_token
get_replacement_token_id x refresh_token = do
  found ← Token.get_by_token_hash (hash_refresh_token x refresh_token)
  replacement ← or_raise found (invalid_token "Replacement refresh token could not be persisted.")
  return replacement.id

-- What `refresh` finds out before it writes: the row, and the identity and scope for the new pair.
pub record Presented : Type 0 where
  pub stored : RefreshToken
  pub user_id : ℕ
  pub context_type : String
  pub organization_id : Option ℕ
  pub membership_id : Option ℕ

-- `refresh` between the validation of the token and the first write.
abbrev pub check_claims : External → String → ℕ → Claims → Action Presented
check_claims x refresh_token now p = do
  user_id ← subject_id x p
  found ← Token.get_by_token_hash (hash_refresh_token x refresh_token)
  stored ← or_raise found (invalid_token "Refresh token is not recognized.")
  raise_if stored.is_revoked (revoked_token "Refresh token has been revoked.")
  raise_if (leb stored.expires_at now) (expired_token "Refresh token has expired.")
  raise_if (not (stored.user_id == user_id)) (invalid_token "Refresh token subject does not match.")
  context_type ←
      or_raise (as_text (some (context_claim p))) (invalid_token "Token context is invalid.")
  organization_id ← organization_claim x p
  membership_id ← membership_claim x p
  return (record {
    stored = stored;
    user_id = user_id;
    context_type = context_type;
    organization_id = organization_id;
    membership_id = membership_id;
  })

-- The first half of `refresh`: its checks.
unfoldable pub check_refresh : External → String → ℕ → Action Presented
unfolding validate_refresh_token Token.get_by_token_hash hash_refresh_token optional_uuid_claim
check_refresh x refresh_token now = do
  p ← validate_refresh_token x refresh_token
  check_claims x refresh_token now p

-- The end of `refresh`, after the new pair has been issued.
unfoldable pub retire_presented :
    External
    → Presented
    → (ip_address user_agent : Option String) → ℕ
    → TokenPair
    → Action TokenPair
unfolding get_replacement_token_id Token.rotate Token.mark_used Events.create_auth_event
retire_presented x c ip_address user_agent now replacement = do
  replacement_id ← get_replacement_token_id x replacement.refresh_token
  rotated ← Token.rotate c.stored replacement_id now
  Token.mark_used rotated now
  Events.create_auth_event x (some c.user_id) c.context_type Event.token_refresh c.organization_id
      c.membership_id ip_address user_agent none
  return replacement

-- The second half of `refresh`: the rotation.
unfoldable pub rotate_presented :
    External → Presented → (ip_address user_agent : Option String) → ℕ → Action TokenPair
unfolding issue_tokens retire_presented
rotate_presented x c ip_address user_agent now = do
  replacement ← issue_tokens x c.user_id c.context_type c.organization_id c.membership_id (some now)
  retire_presented x c ip_address user_agent now replacement

unfoldable pub refresh :
    External → String → (ip_address user_agent : Option String) → Option ℕ → Action TokenPair
unfolding check_refresh rotate_presented
refresh x refresh_token ip_address user_agent now = do
  at ← current_time now
  presented ← check_refresh x refresh_token at
  rotate_presented x presented ip_address user_agent at

unfoldable pub revoke :
    External → String → (ip_address user_agent : Option String) → Option ℕ → Action (Unit {0})
unfolding validate_refresh_token Token.get_by_token_hash hash_refresh_token optional_uuid_claim
    Token.revoke Events.create_auth_event
revoke x refresh_token ip_address user_agent now = do
  at ← current_time now
  p ← validate_refresh_token x refresh_token
  user_id ← subject_id x p
  found ← Token.get_by_token_hash (hash_refresh_token x refresh_token)
  stored ← or_raise found (invalid_token "Refresh token is not recognized.")
  raise_if stored.is_revoked (revoked_token "Refresh token has already been revoked.")
  Token.revoke stored at
  let context_type = or_default (as_text (some (context_claim p))) Context.personal
  organization_id ← organization_claim x p
  membership_id ← membership_claim x p
  Events.create_auth_event x (some user_id) context_type Event.token_revoked organization_id
      membership_id ip_address user_agent none
  return tt

unfoldable pub revoke_all :
    (user_id : ℕ) → Option String → (organization_id membership_id revoked_at : Option ℕ) → Action ℕ
unfolding Token.revoke_all_for_user
revoke_all user_id context_type organization_id membership_id revoked_at = do
  at ← current_time revoked_at
  Token.revoke_all_for_user user_id at context_type organization_id membership_id
