-- ===== src/App/Statuses.antt =====
-- The status codes of each endpoint's answers, over the two HTTP clients.
use buildos_auth_service.Prelude.{ℕ, ◌≡◌, String, Bool, true, Option, none, List, [], ◌∷◌, arith}
use buildos_auth_service.Core.Exceptions.{Error, http, is_integration_error}
use buildos_auth_service.External.{External, ClaimValue}
use buildos_auth_service.Database.{World, ◌>>=◌, ◌>>◌, return}
use buildos_auth_service.Services.Context.{personal_context}
use buildos_auth_service.Services.Token.{refresh, revoke}
use buildos_auth_service.Services.Password as PasswordService
use buildos_auth_service.Services.Logout as LogoutService
use buildos_auth_service.Security.TokenValidation.{validate_access_token}
use buildos_auth_service.Integrations.UserService.Errors.{RaisesOnly}
use buildos_auth_service.Api.Dependencies.{
  get_current_user_context, context_of, optional_uuid_claim,
}
use buildos_auth_service.Api.Errors.{
  catching, refresh_error, revoke_error, logout_error, change_password_error, confirm_reset_error,
  register_error, access_token_error,
}
use buildos_auth_service.Api.Errors.Classes.{
  raises_bind, raises_map, raises_session, one_of, is_token_error, is_invalid_credentials,
  is_password_reset, is_refresh_error, is_access_error, is_registration_error,
}
use buildos_auth_service.Api.Register.{availability_error}
use buildos_auth_service.Api.Auth as AuthApi
use buildos_auth_service.Api.Token as TokenApi
use buildos_auth_service.Api.Password as PasswordApi
use buildos_auth_service.App.Errors.{
  validate_access_token-errors, refresh-errors, revoke-errors, change_password-errors,
  confirm_reset-errors,
}

-- The status code that an exception gets, at FastAPI's documented answer to one that is no
-- HTTPException.
abbrev pub status_of : Error → ℕ
status_of (http status_code message) = status_code
status_of e = 500

abbrev pub among : List ℕ → Error → Bool
among codes e = one_of (status_of e) codes

-- The clauses of the `except` statements.
refresh_error-among :
    (e : Error) → is_refresh_error e ≡ true → among (401 ∷ 500 ∷ []) (refresh_error e) ≡ true
unfolding refresh_error
refresh_error-among e h = ground (arith, h)

revoke_error-among :
    (e : Error) → is_token_error e ≡ true → among (401 ∷ []) (revoke_error e) ≡ true
unfolding revoke_error
revoke_error-among e h = ground (arith, h)

logout_error-among :
    (e : Error) → is_token_error e ≡ true → among (401 ∷ []) (logout_error e) ≡ true
unfolding logout_error
logout_error-among e h = ground (arith, h)

pub access_token_error-among :
    (e : Error) → is_access_error e ≡ true → among (401 ∷ []) (access_token_error e) ≡ true
unfolding access_token_error
access_token_error-among e h = ground (arith, h)

change_password_error-among :
    (e : Error)
    → is_invalid_credentials e ≡ true
    → among (401 ∷ []) (change_password_error e) ≡ true
unfolding change_password_error
change_password_error-among e h = ground (arith, h)

confirm_reset_error-among :
    (e : Error) → is_password_reset e ≡ true → among (400 ∷ []) (confirm_reset_error e) ≡ true
unfolding confirm_reset_error
confirm_reset_error-among e h = ground (arith, h)

pub register_error-among :
    (e : Error)
    → is_registration_error e ≡ true
    → among (409 ∷ 422 ∷ 503 ∷ 500 ∷ []) (register_error e) ≡ true
unfolding register_error is_integration_error
register_error-among e h = ground (arith, h)

pub availability_error-among :
    (e : Error) → is_integration_error e ≡ true → among (503 ∷ []) (availability_error e) ≡ true
unfolding availability_error is_integration_error
availability_error-among e h = ground (arith, h)

module _ (x : External) where
  optional_uuid_claim-among :
      (v : Option ClaimValue) (w : World)
      → RaisesOnly (among (401 ∷ [])) (optional_uuid_claim x v w).0
  unfolding optional_uuid_claim
  optional_uuid_claim-among v w = ground arith

  pub get_current_user_context-among :
      (token : String) (w : World)
      → RaisesOnly (among (401 ∷ [])) (get_current_user_context x token w).0
  unfolding get_current_user_context optional_uuid_claim
  get_current_user_context-among token w =
      raises_bind (among (401 ∷ [])) (catching access_token_error (validate_access_token x token) w)
        (context_of x)
        (raises_map is_access_error (among (401 ∷ [])) access_token_error _
          (validate_access_token-errors x w token) access_token_error-among)
        (λ p w'. ground arith)

  pub refresh_token-among :
      (token : String) (ip_address user_agent : Option String) (w : World)
      → RaisesOnly
          (among (401 ∷ 500 ∷ []))
          (TokenApi.refresh_token x token ip_address user_agent w).0
  unfolding TokenApi.refresh_token
  refresh_token-among token ip_address user_agent w =
      raises_session (among (401 ∷ 500 ∷ []))
        (catching refresh_error (refresh x token ip_address user_agent none)) w
        (raises_map is_refresh_error (among (401 ∷ 500 ∷ [])) refresh_error _
          (refresh-errors x token ip_address user_agent none w) refresh_error-among)

  pub revoke_token-among :
      (token : String) (ip_address user_agent : Option String) (w : World)
      → RaisesOnly (among (401 ∷ [])) (TokenApi.revoke_token x token ip_address user_agent w).0
  unfolding TokenApi.revoke_token
  revoke_token-among token ip_address user_agent w =
      raises_session (among (401 ∷ []))
        (catching revoke_error (revoke x token ip_address user_agent none) >> return true) w
        (raises_bind (among (401 ∷ []))
          (catching revoke_error (revoke x token ip_address user_agent none) w)
          (λ done. return true)
          (raises_map is_token_error (among (401 ∷ [])) revoke_error _
            (revoke-errors x w token ip_address user_agent none) revoke_error-among)
          (λ done w'. tt))

  pub logout-among :
      (token : String) (ip_address user_agent : Option String) (w : World)
      → RaisesOnly (among (401 ∷ [])) (AuthApi.logout x token ip_address user_agent w).0
  unfolding AuthApi.logout LogoutService.logout
  logout-among token ip_address user_agent w =
      raises_session (among (401 ∷ []))
        (catching logout_error (LogoutService.logout x token ip_address user_agent) >> return true)
        w
        (raises_bind (among (401 ∷ []))
          (catching logout_error (LogoutService.logout x token ip_address user_agent) w)
          (λ done. return true)
          (raises_map is_token_error (among (401 ∷ [])) logout_error _
            (raises_bind is_token_error (revoke x token ip_address user_agent none w)
              (λ done. return true) (revoke-errors x w token ip_address user_agent none)
              (λ done w'. tt))
            logout_error-among)
          (λ done w'. tt))

  pub change_password-among :
      (token current_password new_password : String) (ip_address user_agent : Option String)
      (w : World)
      → RaisesOnly
          (among (401 ∷ []))
          (PasswordApi.change_password x token current_password new_password ip_address user_agent
            w).0
  unfolding PasswordApi.change_password
  change_password-among token current_password new_password ip_address user_agent w =
      raises_session (among (401 ∷ []))
        (get_current_user_context x token >>= λ current_user. catching change_password_error (
          PasswordService.change_password x current_user.user_id current_password new_password
            (personal_context ip_address user_agent) none))
        w
        (raises_bind (among (401 ∷ [])) (get_current_user_context x token w)
          (λ current_user. catching change_password_error (
            PasswordService.change_password x current_user.user_id current_password new_password
              (personal_context ip_address user_agent) none))
          (get_current_user_context-among token w)
          (λ current_user w'.
            raises_map is_invalid_credentials (among (401 ∷ [])) change_password_error _
              (change_password-errors x w' current_user.user_id current_password new_password
                (personal_context ip_address user_agent) none)
              change_password_error-among))

  pub confirm_password_reset-among :
      (reset_token new_password : String) (ip_address user_agent : Option String) (w : World)
      → RaisesOnly
          (among (400 ∷ []))
          (PasswordApi.confirm_password_reset x reset_token new_password ip_address user_agent w).0
  unfolding PasswordApi.confirm_password_reset
  confirm_password_reset-among reset_token new_password ip_address user_agent w =
      raises_session (among (400 ∷ []))
        (catching confirm_reset_error
          (PasswordService.confirm_reset x reset_token new_password ip_address user_agent none))
        w
        (raises_map is_password_reset (among (400 ∷ [])) confirm_reset_error _
          (confirm_reset-errors x w reset_token new_password ip_address user_agent none)
          confirm_reset_error-among)
