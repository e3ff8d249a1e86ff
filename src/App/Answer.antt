-- ===== src/App/Answer.antt =====
-- The responses: their bodies by their schemas, and their status codes. What FastAPI and slowapi answer
-- by themselves is a parameter.
use buildos_auth_service.Prelude.{ℕ, ◌≡◌, String, Bool, true}
use buildos_auth_service.Core.Exceptions.{Error, http}
use buildos_auth_service.Database.{Result, ok, err}
use buildos_auth_service.Services.Token.{TokenPair}
use buildos_auth_service.Services.Password.{PasswordChangeResult, PasswordResetResult}
use buildos_auth_service.Schemas.Token.{TokenRefreshResponse, TokenRevokeResponse, TokenMeResponse}
use buildos_auth_service.Schemas.Password.{
  ChangePasswordResponse, PasswordResetRequestResponse, PasswordResetConfirmResponse,
}
use buildos_auth_service.Api.Dependencies.{TokenUserContext}
use buildos_auth_service.Api.Auth.{LoginResponse}
use buildos_auth_service.Api.Register.{RegisterResponse}
use buildos_auth_service.Api.Health.{HealthResponse, ReadinessResponse}

-- The body of a response, by its schema; `other` is a body of the framework.
pub data Body : Type 0 where
  alive : HealthResponse → Body
  ready : ReadinessResponse → Body
  registered : RegisterResponse → Body
  logged_in : LoginResponse → Body
  identity : TokenMeResponse → Body
  token_revoked : TokenRevokeResponse → Body
  availability : Bool → Body
  refreshed : TokenRefreshResponse → Body
  password_changed : ChangePasswordResponse → Body
  reset_requested : PasswordResetRequestResponse → Body
  reset_confirmed : PasswordResetConfirmResponse → Body
  detail : String → Body
  other : String → Body

pub record Answer : Type 0 where
  pub status_code : ℕ
  pub body : Body

-- The answers that are not the endpoints' own: to a request that a schema refuses, to one over its
-- rate, and to an exception that is no HTTPException.
pub record Framework : Type 0 where
  pub unprocessable : Answer
  pub rate_exceeded : Answer
  pub unhandled : Error → Answer

-- The documented status codes of those answers.
pub record IsFramework (f : Framework) : Type 0 where
  pub unprocessable : f.unprocessable.status_code ≡ 422
  pub rate_exceeded : f.rate_exceeded.status_code ≡ 429
  pub unhandled : (e : Error) → (f.unhandled e).status_code ≡ 500

-- The response to what an endpoint returns or raises.
unfoldable pub answered : {A : Type 0} → Framework → ℕ → (A → Body) → Result A → Answer
answered f success body (ok a) = record { status_code = success; body = body a }
answered f success body (err (http status_code message)) = record {
  status_code = status_code;
  body = detail message;
}
answered f success body (err e) = f.unhandled e

-- What the endpoints make of what their services return.
abbrev pub me_response : TokenUserContext → TokenMeResponse
me_response current_user = record {
  authenticated = true;
  user_id = current_user.user_id;
  context_type = current_user.context_type;
  organization_id = current_user.organization_id;
  membership_id = current_user.membership_id;
}

abbrev pub refresh_response : TokenPair → TokenRefreshResponse
refresh_response pair = record {
  access_token = pair.access_token;
  refresh_token = pair.refresh_token;
  token_type = pair.token_type;
}

abbrev pub change_response : PasswordChangeResult → ChangePasswordResponse
change_response result = record { changed = result.changed; user_id = result.user_id }

abbrev pub revoke_response : Bool → TokenRevokeResponse
revoke_response revoked = record { revoked = revoked }

abbrev pub request_response : Bool → PasswordResetRequestResponse
request_response requested = record { requested = requested }

abbrev pub confirm_response : PasswordResetResult → PasswordResetConfirmResponse
confirm_response result = record { reset = result.reset; user_id = result.user_id }
