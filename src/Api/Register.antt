-- ===== src/Api/Register.antt =====
-- app/api/v1/auth.py: registration and the availability check.
pub mod Availability
use buildos_auth_service.Prelude.{
  ℕ, String, Bool, true, not, ◌&&◌, Option, none, some, is_found, if_given, if◌then◌else◌,
}
use buildos_auth_service.Core.Exceptions.{Error, is_integration_error, http}
use buildos_auth_service.External.{External}
use buildos_auth_service.Database.{
  Action, lift, raise_if, or_raise, ◌>>=◌, ◌>>◌, return, with_session,
}
use buildos_auth_service.Services.UserDirectory.{UserDirectory}
use buildos_auth_service.Services.Registration as RegistrationService
use buildos_auth_service.Services.Registration.{RegistrationResult, UserFields, Surroundings}
use buildos_auth_service.Api.Errors.{catching, register_error}

-- The payload: what the User Service is told, and the password.
pub record RegisterRequest : Type 0 where
  pub fields : UserFields
  pub password : String

pub record RegisterResponse : Type 0 where
  pub registered : Bool
  pub user_id : ℕ
  pub public_id : String
  pub access_token : String
  pub refresh_token : String
  pub token_type : String

abbrev pub response_of : RegistrationResult → RegisterResponse
response_of result = record {
  registered = true;
  user_id = result.user.user_id;
  public_id = result.user.public_id;
  access_token = result.tokens.access_token;
  refresh_token = result.tokens.refresh_token;
  token_type = result.tokens.token_type;
}

-- The body of `register`.
unfoldable pub register_handler :
    External
    → Surroundings
    → (idempotency_key : Option String) (payload : RegisterRequest)
    → (ip_address user_agent : Option String) → Action RegisterResponse
unfolding RegistrationService.register register_error
register_handler x env idempotency_key payload ip_address user_agent = do
  key ← or_raise (if_given idempotency_key) (http 400 "Idempotency-Key header is required.")
  result ←
      catching register_error (
        RegistrationService.register x env key payload.fields payload.password ip_address
          user_agent)
  return (response_of result)

unfoldable pub register :
    External
    → Surroundings
    → (idempotency_key : Option String) (payload : RegisterRequest)
    → (ip_address user_agent : Option String) → Action RegisterResponse
unfolding register_handler with_session
register x env idempotency_key payload ip_address user_agent =
    with_session (register_handler x env idempotency_key payload ip_address user_agent)

unfoldable pub availability_error : Error → Error
unfolding is_integration_error
availability_error e =
    if is_integration_error e
    then http 503 "User identity service is temporarily unavailable."
    else e

-- `if value: user_id = resolve_identifier(identifier=value)`
abbrev pub resolve_if : UserDirectory → Option String → Action (Option ℕ)
resolve_if users none = return none
resolve_if users (some identifier) = lift (users.resolve_identifier identifier)

-- `if not user_id and username: …`
abbrev pub resolve_unless : UserDirectory → Option ℕ → Option String → Action (Option ℕ)
resolve_unless users none username = resolve_if users username
resolve_unless users (some user_id) username = return (some user_id)

-- The response is the value of `available`.
unfoldable pub check_availability : UserDirectory → (email username : Option String) → Action Bool
unfolding availability_error
check_availability users email username = do
  raise_if (not (is_found (if_given email)) && not (is_found (if_given username)))
      (http 400 "Either email or username must be provided.")
  user_id ← catching availability_error (
      resolve_if users (if_given email) >>= λ found. resolve_unless users found (if_given username))
  return (not (is_found user_id))
