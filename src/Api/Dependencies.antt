-- ===== src/Api/Dependencies.antt =====
-- app/api/dependencies.py: the current user's context, from an access token, and the check of an
-- internal caller.
pub mod Purity
use package.text.Mathlib.Text.{starts_with}
use buildos_auth_service.Prelude.{
  ℕ, String, Bool, true, not, Option, none, some, str_eq, strip, removeprefix, if_given,
  if◌then◌else◌,
}
use buildos_auth_service.Core.Exceptions.{http}
use buildos_auth_service.External.{External, Claims, ClaimValue, text, null, get_claim}
use buildos_auth_service.Database.{Action, raise, raise_if, or_raise, ◌>>=◌, ◌>>◌, return}
use buildos_auth_service.Security.TokenValidation.{validate_access_token, as_text}
use buildos_auth_service.Services.Token.{context_claim}
use buildos_auth_service.Api.Errors.{catching, access_token_error}

pub record TokenUserContext : Type 0 where
  pub user_id : ℕ
  pub context_type : String
  pub organization_id : Option ℕ
  pub membership_id : Option ℕ

-- `_optional_uuid_claim`, on the value of the claim.
unfoldable pub optional_uuid_claim : External → Option ClaimValue → Action (Option ℕ)
optional_uuid_claim x none = return none
optional_uuid_claim x (some null) = return none
optional_uuid_claim x (some (text s)) = do
  id ← or_raise (x.parse_uuid s) (http 401 "Invalid access token context.")
  return (some id)
optional_uuid_claim x (some _) = raise (http 401 "Invalid access token context.")

-- `get_current_user_context` after the validation of the token.
abbrev pub context_of : External → Claims → Action TokenUserContext
context_of x p = do
  subject ← or_raise (as_text (get_claim "sub" p)) (http 401 "Invalid access token.")
  user_id ← or_raise (x.parse_uuid subject) (http 401 "Invalid access token.")
  context_type ←
      or_raise (as_text (some (context_claim p))) (http 401 "Invalid access token context.")
  organization_id ← optional_uuid_claim x (get_claim "organization_id" p)
  membership_id ← optional_uuid_claim x (get_claim "membership_id" p)
  return (record {
    user_id = user_id;
    context_type = context_type;
    organization_id = organization_id;
    membership_id = membership_id;
  })

unfoldable pub get_current_user_context : External → String → Action TokenUserContext
unfolding validate_access_token access_token_error optional_uuid_claim
get_current_user_context x token = do
  p ← catching access_token_error (validate_access_token x token)
  context_of x p

abbrev pub without_bearer : String → String
without_bearer key = if starts_with key "Bearer " then strip (removeprefix "Bearer " key) else key

-- `verify_internal_service`, by the two headers.
unfoldable pub verify_internal_service :
    External → (api_key service_id : Option String) → Action Bool
verify_internal_service x api_key service_id = do
  key ← or_raise (if_given api_key) (http 401 "Missing API key.")
  or_raise (if_given service_id) (http 401 "Missing service identity.")
  raise_if (not (str_eq (without_bearer key) x.settings.internal_api_key))
      (http 401 "Invalid API key.")
  return true
