-- ===== src/App/Errors.antt =====
-- The classes of the exceptions that the services raise.
use buildos_auth_service.Prelude.{ℕ, ◌≡◌, String, true, Option, some, arith, or_default}
use buildos_auth_service.Core.Exceptions.{Error, is_integration_error}
use buildos_auth_service.External.{External, Claims}
use buildos_auth_service.Database.{World}
use buildos_auth_service.Services.Context.{RequestContext}
use buildos_auth_service.Services.UserDirectory.{UserDirectory}
use buildos_auth_service.Services.Token.{
  optional_uuid_claim, Presented, TokenPair, issue_tokens, check_claims, check_refresh,
  retire_presented, rotate_presented, refresh, revoke,
}
use buildos_auth_service.Repositories.Token.{get_by_token_hash}
use buildos_auth_service.Services.Password as PasswordService
use buildos_auth_service.System.{CreateUser, undisturbed}
use buildos_auth_service.Services.Registration.{ensure_credential, UserFields}
use buildos_auth_service.Models.{AuthCredential}
use buildos_auth_service.Services.Registration as RegistrationService
use buildos_auth_service.Security.TokenValidation.{validate_refresh_token, validate_access_token}
use buildos_auth_service.Integrations.UserService.Errors.{RaisesOnly, is_creation_error}
use buildos_auth_service.Api.Errors.Classes.{
  raises_bind, raises_sub, is_token_error, is_invalid_credentials, is_password_reset,
  is_integrity_error, is_refresh_error, is_database_error, is_request_error, is_access_error,
  is_registration_error,
}

integrity_refresh : (e : Error) → is_integrity_error e ≡ true → is_refresh_error e ≡ true
integrity_refresh e h = ground (arith, h)

token_refresh : (e : Error) → is_token_error e ≡ true → is_refresh_error e ≡ true
token_refresh e h = ground (arith, h)

module _ (x : External) where
  check_claims-errors :
      (token : String) (at : ℕ) (p : Claims) (w : World)
      → RaisesOnly is_token_error (check_claims x token at p w).0
  unfolding optional_uuid_claim get_by_token_hash
  check_claims-errors token at p w = ground arith

module _ (x : External) (w : World) where
  pub validate_access_token-errors :
      (token : String) → RaisesOnly is_access_error (validate_access_token x token w).0
  unfolding validate_access_token
  validate_access_token-errors token = ground arith

  pub validate_refresh_token-errors :
      (token : String) → RaisesOnly is_token_error (validate_refresh_token x token w).0
  unfolding validate_refresh_token
  validate_refresh_token-errors token = ground arith

  pub check_refresh-errors :
      (token : String) (at : ℕ) → RaisesOnly is_token_error (check_refresh x token at w).0
  unfolding check_refresh
  check_refresh-errors token at =
      raises_bind is_token_error (validate_refresh_token x token w) (check_claims x token at)
        (validate_refresh_token-errors token) (λ p w'. check_claims-errors x token at p w')

  pub revoke-errors :
      (token : String) (ip_address user_agent : Option String) (now : Option ℕ)
      → RaisesOnly is_token_error (revoke x token ip_address user_agent now w).0
  unfolding revoke
  revoke-errors token ip_address user_agent now = ground arith

  pub issue_tokens-errors :
      (user_id : ℕ) (context_type : String) (organization_id membership_id now : Option ℕ)
      → RaisesOnly is_integrity_error
          (issue_tokens x user_id context_type organization_id membership_id now w).0
  unfolding issue_tokens
  issue_tokens-errors user_id context_type organization_id membership_id now = ground arith

  pub change_password-errors :
      (user_id : ℕ) (current_password new_password : String) (context : RequestContext)
      (now : Option ℕ)
      → RaisesOnly is_invalid_credentials
          (PasswordService.change_password x user_id current_password new_password context now w).0
  unfolding PasswordService.change_password
  change_password-errors user_id current_password new_password context now = ground arith

  pub confirm_reset-errors :
      (reset_token new_password : String) (ip_address user_agent : Option String) (now : Option ℕ)
      → RaisesOnly is_password_reset
          (PasswordService.confirm_reset x reset_token new_password ip_address user_agent now w).0
  unfolding PasswordService.confirm_reset
  confirm_reset-errors reset_token new_password ip_address user_agent now = ground arith

  retire_presented-errors :
      (c : Presented) (ip_address user_agent : Option String) (at : ℕ) (pair : TokenPair)
      → RaisesOnly is_refresh_error (retire_presented x c ip_address user_agent at pair w).0
  unfolding retire_presented
  retire_presented-errors c ip_address user_agent at pair = ground arith

module _ (x : External) where
  rotate_presented-errors :
      (c : Presented) (ip_address user_agent : Option String) (at : ℕ) (w : World)
      → RaisesOnly is_refresh_error (rotate_presented x c ip_address user_agent at w).0
  unfolding rotate_presented
  rotate_presented-errors c ip_address user_agent at w =
      raises_bind is_refresh_error
        (issue_tokens x c.user_id c.context_type c.organization_id c.membership_id (some at) w)
        (retire_presented x c ip_address user_agent at)
        (raises_sub is_integrity_error is_refresh_error _
          (issue_tokens-errors x w c.user_id c.context_type c.organization_id c.membership_id
            (some at))
          integrity_refresh)
        (λ pair w'. retire_presented-errors x w' c ip_address user_agent at pair)

  pub refresh-errors :
      (token : String) (ip_address user_agent : Option String) (now : Option ℕ) (w : World)
      → RaisesOnly is_refresh_error (refresh x token ip_address user_agent now w).0
  unfolding refresh
  refresh-errors token ip_address user_agent now w =
      raises_bind is_refresh_error (check_refresh x token (or_default now w.clock) w)
        (λ c. rotate_presented x c ip_address user_agent (or_default now w.clock))
        (raises_sub is_token_error is_refresh_error _
          (check_refresh-errors x w token (or_default now w.clock)) token_refresh)
        (λ c w'. rotate_presented-errors c ip_address user_agent (or_default now w.clock) w')

module _ (x : External) (w : World) where
  ensure_credential-errors :
      (create_user : CreateUser) (user_id : ℕ) (password_hash : String)
      (found : Option AuthCredential)
      → RaisesOnly is_database_error
          (ensure_credential x (undisturbed create_user) user_id password_hash found w).0
  unfolding ensure_credential
  ensure_credential-errors create_user user_id password_hash found = ground arith

  pub register-errors :
      (create_user : CreateUser) (key : String) (fields : UserFields) (password : String)
      (ip_address user_agent : Option String)
      → RaisesOnly is_creation_error (create_user key fields)
      → RaisesOnly is_registration_error
          (RegistrationService.register x
            (undisturbed create_user)
            key
            fields
            password
            ip_address
            user_agent
            w).0
  unfolding RegistrationService.register
  register-errors create_user key fields password ip_address user_agent creating =
      ground (arith, creating)

  pub request_reset-errors :
      (users : UserDirectory) (identifier : String) (ip_address : Option String) (now : Option ℕ)
      → RaisesOnly is_integration_error (users.resolve_identifier identifier)
      → RaisesOnly is_request_error
          (PasswordService.request_reset x users identifier ip_address now w).0
  unfolding PasswordService.request_reset
  request_reset-errors users identifier ip_address now resolving = ground (arith, resolving)
