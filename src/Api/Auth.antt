-- ===== src/Api/Auth.antt =====
-- app/api/v1/auth.py: login, the current user, and logout. The session service is a parameter: a
-- call of `create_session` returns or raises.
pub mod Rollback
pub mod Refusals
use buildos_auth_service.Prelude.{ℕ, ◌+◌, String, Bool, true, not, Option, none, some}
use buildos_auth_service.Core.Context
use buildos_auth_service.Core.Config.{minutes}
use buildos_auth_service.Core.Exceptions.{http}
use buildos_auth_service.External.{External}
use buildos_auth_service.Database.{
  Action, Result, gets, draw, lift, raise_if, or_raise, ◌>>=◌, ◌>>◌, return, with_session,
}
use buildos_auth_service.Services.Context.{personal_context}
use buildos_auth_service.Services.UserDirectory.{UserDirectory}
use buildos_auth_service.Services.Login as LoginService
use buildos_auth_service.Services.Logout as LogoutService
use buildos_auth_service.Services.Authentication.{AuthenticationResult}
use buildos_auth_service.Services.Token.{TokenPair, issue_tokens}
use buildos_auth_service.Api.Errors.{catching, login_error, session_error, logout_error}
use buildos_auth_service.Api.Dependencies.{TokenUserContext, get_current_user_context}

-- `SessionService.create_session`, by user, device and expiry.
abbrev pub CreateSession : Type 0
CreateSession = ℕ → ℕ → ℕ → Result ℕ

pub record LoginRequest : Type 0 where
  pub identifier : String
  pub password : String
  pub device_id : Option ℕ

pub record LoginResponse : Type 0 where
  pub authenticated : Bool
  pub user_id : ℕ
  pub access_token : String
  pub refresh_token : String
  pub token_type : String

-- `payload.device_id or uuid4()`
abbrev pub device_or_draw : External → Option ℕ → Action ℕ
device_or_draw x none = do d ← draw; return (x.uuid4 d)
device_or_draw x (some id) = return id

-- The end of `login`, after the tokens have been issued: the session and the response.
unfoldable pub open_session :
    External → CreateSession → LoginRequest → ℕ → TokenPair → Action LoginResponse
unfolding session_error
open_session x create_session payload user_id pair = do
  device_id ← device_or_draw x payload.device_id
  now ← gets (λ w. w.clock)
  let expires_at = now + minutes x.settings.access_token_expire_minutes
  catching session_error (lift (create_session user_id device_id expires_at))
  return (record {
    authenticated = true;
    user_id = user_id;
    access_token = pair.access_token;
    refresh_token = pair.refresh_token;
    token_type = pair.token_type;
  })

-- `login` after the authentication.
unfoldable pub issue_and_answer : External → CreateSession → LoginRequest → ℕ → Action LoginResponse
unfolding issue_tokens open_session
issue_and_answer x create_session payload user_id = do
  pair ← issue_tokens x user_id Context.personal none none none
  open_session x create_session payload user_id pair

-- `login` after the login service.
unfoldable pub answer_login :
    External → CreateSession → LoginRequest → AuthenticationResult → Action LoginResponse
answer_login x create_session payload authentication = do
  raise_if (not authentication.authenticated) (http 401 "Invalid credentials.")
  user_id ←
      or_raise authentication.user_id (http 500 "Authentication completed without a user identity.")
  issue_and_answer x create_session payload user_id

unfoldable pub login_handler :
    External
    → UserDirectory
    → CreateSession
    → LoginRequest
    → (ip_address user_agent : Option String) → Action LoginResponse
unfolding LoginService.login login_error answer_login issue_and_answer
login_handler x users create_session payload ip_address user_agent = do
  authentication ← catching login_error (
      LoginService.login x users payload.identifier payload.password
        (personal_context ip_address user_agent))
  answer_login x create_session payload authentication

unfoldable pub login :
    External
    → UserDirectory
    → CreateSession
    → LoginRequest
    → (ip_address user_agent : Option String) → Action LoginResponse
unfolding login_handler with_session
login x users create_session payload ip_address user_agent =
    with_session (login_handler x users create_session payload ip_address user_agent)

-- The response is the context with `authenticated` set; only the context is kept here.
unfoldable pub me : External → String → Action TokenUserContext
unfolding get_current_user_context
me x access_token = get_current_user_context x access_token

-- The response is the field `revoked`.
unfoldable pub logout :
    External → (refresh_token : String) → (ip_address user_agent : Option String) → Action Bool
unfolding LogoutService.logout logout_error with_session
logout x refresh_token ip_address user_agent = with_session (do
  catching logout_error (LogoutService.logout x refresh_token ip_address user_agent)
  return true)
