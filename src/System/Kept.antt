-- ===== src/System/Kept.antt =====
-- A property of the stored state that each service keeps, over a sequence of requests.
pub mod Services
pub mod Handlers
pub mod Requests
use buildos_auth_service.Prelude.{ℕ, ◌+◌, ◌≡◌, String, Bool, Option, none, or_default}
use buildos_auth_service.Core.Context
use buildos_auth_service.External.{External}
use buildos_auth_service.Database.{World}
use buildos_auth_service.Services.UserDirectory.{UserDirectory}
use buildos_auth_service.Services.Context.{RequestContext}
use buildos_auth_service.Services.Token.{
  Presented, TokenPair, issue_tokens, retire_presented, revoke,
}
use buildos_auth_service.Services.Login as LoginService
use buildos_auth_service.Services.Logout as LogoutService
use buildos_auth_service.Services.Password as PasswordService
use buildos_auth_service.Services.CredentialSync.{sync_status}
use buildos_auth_service.Services.Registration as RegistrationService
use buildos_auth_service.Services.Registration.{UserFields}
use buildos_auth_service.Services.Authentication.{authenticate}
use buildos_auth_service.Api.Auth as AuthApi
use buildos_auth_service.Api.Register as RegisterApi
use buildos_auth_service.Api.Token as TokenApi
use buildos_auth_service.Api.Password as PasswordApi
use buildos_auth_service.Api.Status as StatusApi
use buildos_auth_service.System
use buildos_auth_service.System.{CreateUser, undisturbed}

-- Each service keeps the property, wherever it ends, and so do a draw and the clock. What sets a
-- time in the future, the services do with the time of the clock.
pub record IsKept (x : External) (Q : World → Type 0) : Type 0 where
  pub drawn : (draws : ℕ) (w : World) → Q w → Q (record w { draws = draws })
  pub waited : (n : ℕ) (w : World) → Q w → Q (record w { clock = w.clock + n })
  pub issued :
      (user_id : ℕ) (context_type : String) (organization_id membership_id now : Option ℕ)
      (w : World)
      → or_default now w.clock ≡ w.clock
      → Q w
      → Q (issue_tokens x user_id context_type organization_id membership_id now w).1
  pub authenticated :
      (user_id : ℕ) (password identifier : String) (context : RequestContext) (w : World)
      → Q w
      → Q (authenticate x user_id password identifier context none w).1
  pub registered :
      (create_user : CreateUser) (key : String) (fields : UserFields) (password : String)
      (ip_address user_agent : Option String) (w : World)
      → Q w
      → Q
          (RegistrationService.register x
            (undisturbed create_user)
            key
            fields
            password
            ip_address
            user_agent
            w).1
  pub retired :
      (c : Presented) (ip_address user_agent : Option String) (at : ℕ) (pair : TokenPair)
      (w : World)
      → Q w
      → Q (retire_presented x c ip_address user_agent at pair w).1
  pub revoked :
      (token : String) (ip_address user_agent : Option String) (now : Option ℕ) (w : World)
      → Q w
      → Q (revoke x token ip_address user_agent now w).1
  pub changed :
      (user_id : ℕ) (current_password new_password : String) (context : RequestContext)
      (now : Option ℕ) (w : World)
      → Q w
      → Q (PasswordService.change_password x user_id current_password new_password context now w).1
  pub requested :
      (users : UserDirectory) (identifier : String) (ip_address : Option String) (w : World)
      → Q w
      → Q (PasswordService.request_reset x users identifier ip_address none w).1
  pub confirmed :
      (reset_token new_password : String) (ip_address user_agent : Option String) (now : Option ℕ)
      (w : World)
      → Q w
      → Q (PasswordService.confirm_reset x reset_token new_password ip_address user_agent now w).1
  pub synchronized :
      (user_id : ℕ) (user_status : String) (is_active : Bool) (w : World)
      → Q w
      → Q (sync_status user_id user_status is_active w).1
