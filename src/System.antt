-- ===== src/System.antt =====
-- The service as a whole: requests, one after the other, on the stored state. The clock moves only
-- forward, between requests.
pub mod Kept
pub mod Past
pub mod Lifecycle
pub mod Consistency
pub mod Uniqueness
pub mod Invariant
pub mod Used
pub mod Resets
pub mod Reuse
pub mod Deadlines
pub mod Expiry
pub mod Outage
pub mod Answers
use buildos_auth_service.Prelude.{ℕ, ◌+◌, String, Option, List, [], ◌∷◌}
use buildos_auth_service.External.{External}
use buildos_auth_service.Database.{World, Result, raise}
use buildos_auth_service.Core.Exceptions.{pending_rollback}
use buildos_auth_service.Services.Registration.{Surroundings, UserFields, CreatedUser}
use buildos_auth_service.Services.UserDirectory.{UserDirectory}
use buildos_auth_service.Api.Auth as AuthApi
use buildos_auth_service.Api.Auth.{CreateSession, LoginRequest}
use buildos_auth_service.Api.Register as RegisterApi
use buildos_auth_service.Api.Register.{RegisterRequest}
use buildos_auth_service.Api.Token as TokenApi
use buildos_auth_service.Api.Password as PasswordApi
use buildos_auth_service.Api.Status as StatusApi
use buildos_auth_service.Api.Status.{UserStatusUpdateRequest}

-- `UserService.create_user`, by idempotency key and user data.
abbrev pub CreateUser : Type 0
CreateUser = String → UserFields → Result CreatedUser

-- Registration while no other session is at work.
abbrev pub undisturbed : CreateUser → Surroundings
undisturbed create_user = record {
  create_user = create_user;
  meanwhile = λ w. w;
  query_after_failure = raise pending_rollback;
}

pub data Request : Type 0 where
  register :
      (idempotency_key : Option String)
      → RegisterRequest
      → (ip_address user_agent : Option String) → Request
  login : LoginRequest → (ip_address user_agent : Option String) → Request
  logout : String → (ip_address user_agent : Option String) → Request
  refresh_token : String → (ip_address user_agent : Option String) → Request
  revoke_token : String → (ip_address user_agent : Option String) → Request
  change_password :
      (access_token current_password new_password : String) (ip_address user_agent : Option String)
      → Request
  request_password_reset : String → Option String → Request
  confirm_password_reset :
      (reset_token new_password : String) (ip_address user_agent : Option String) → Request
  update_user_status : (api_key service_id : Option String) → ℕ → UserStatusUpdateRequest → Request
  wait : ℕ → Request

unfoldable pub handle :
    External → UserDirectory → CreateSession → CreateUser → Request → World → World
handle x users create_session create_user (register key payload ip_address user_agent) w =
    (RegisterApi.register x (undisturbed create_user) key payload ip_address user_agent w).1
handle x users create_session create_user (login payload ip_address user_agent) w =
    (AuthApi.login x users create_session payload ip_address user_agent w).1
handle x users create_session create_user (logout token ip_address user_agent) w =
    (AuthApi.logout x token ip_address user_agent w).1
handle x users create_session create_user (refresh_token token ip_address user_agent) w =
    (TokenApi.refresh_token x token ip_address user_agent w).1
handle x users create_session create_user (revoke_token token ip_address user_agent) w =
    (TokenApi.revoke_token x token ip_address user_agent w).1
handle x users create_session create_user
      (change_password access_token current_password new_password ip_address user_agent) w =
    (PasswordApi.change_password x access_token current_password new_password ip_address user_agent
      w).1
handle x users create_session create_user (request_password_reset identifier ip_address) w =
    (PasswordApi.request_password_reset x users identifier ip_address w).1
handle x users create_session create_user
      (confirm_password_reset reset_token new_password ip_address user_agent) w =
    (PasswordApi.confirm_password_reset x reset_token new_password ip_address user_agent w).1
handle x users create_session create_user (update_user_status api_key service_id user_id payload)
      w =
    (StatusApi.update_user_status x api_key service_id user_id payload w).1
handle x users create_session create_user (wait n) w = record w { clock = w.clock + n }

unfoldable pub handle_all :
    External → UserDirectory → CreateSession → CreateUser → List Request → World → World
unfolding handle
handle_all x users create_session create_user [] w = w
handle_all x users create_session create_user (request ∷ rest) w =
    handle_all x users create_session create_user rest
      (handle x users create_session create_user request w)
