-- ===== src/App/Remote.antt =====
-- The status codes of the endpoints that call the User Service.
use buildos_auth_service.Prelude.{
  ℕ, ◌≡◌, String, Bool, true, ◌&&◌, Option, none, some, List, [], ◌∷◌, arith, if_given, is_found,
  not,
}
use buildos_auth_service.Core.Exceptions.{Error, http, is_integration_error}
use buildos_auth_service.External.{External}
use buildos_auth_service.Database.{World, raise_if, or_raise, ◌>>=◌, return}
use buildos_auth_service.Integrations.UserService.Errors.{RaisesOnly, is_creation_error}
use buildos_auth_service.Services.UserDirectory.{UserDirectory}
use buildos_auth_service.Services.Password as PasswordService
use buildos_auth_service.Services.Password.{PasswordResetRequestResult}
use buildos_auth_service.Services.Registration as RegistrationService
use buildos_auth_service.Api.Errors.{catching, register_error}
use buildos_auth_service.Api.Errors.Classes.{
  raises_bind, raises_map, raises_sub, raises_session, is_registration_error, is_request_error,
}
use buildos_auth_service.Api.Register as RegisterApi
use buildos_auth_service.Api.Register.{
  RegisterRequest, register_handler, availability_error, resolve_if, resolve_unless, response_of,
}
use buildos_auth_service.Api.Password as PasswordApi
use buildos_auth_service.System.{CreateUser, undisturbed}
use buildos_auth_service.App.Errors.{register-errors, request_reset-errors}
use buildos_auth_service.App.Statuses.{among, register_error-among, availability_error-among}

-- The directory raises IntegrationErrors only.
pub record RaisesIntegration (users : UserDirectory) : Type 0 where
  pub resolving :
      (identifier : String) → RaisesOnly is_integration_error (users.resolve_identifier identifier)
  pub reading : (user_id : ℕ) → RaisesOnly is_integration_error (users.get_user_status user_id)

abbrev pub register_codes : List ℕ
register_codes = 400 ∷ 409 ∷ 422 ∷ 503 ∷ 500 ∷ []

wider : (e : Error) → among (409 ∷ 422 ∷ 503 ∷ 500 ∷ []) e ≡ true → among register_codes e ≡ true
wider e h = ground (arith, h)

missing_key-among :
    (key : Option String) (w : World)
    → RaisesOnly
        (among register_codes)
        (or_raise key (http 400 "Idempotency-Key header is required.") w).0
missing_key-among key w = ground arith

pub register-among :
    (x : External) (create_user : CreateUser) (key : Option String) (payload : RegisterRequest)
    (ip_address user_agent : Option String) (w : World)
    → ((key' : String) → RaisesOnly is_creation_error (create_user key' payload.fields))
    → RaisesOnly
        (among register_codes)
        (RegisterApi.register x (undisturbed create_user) key payload ip_address user_agent w).0
unfolding RegisterApi.register register_handler
register-among x create_user key payload ip_address user_agent w creating =
    raises_session (among register_codes)
      (register_handler x (undisturbed create_user) key payload ip_address user_agent) w
      (raises_bind (among register_codes)
        (or_raise (if_given key) (http 400 "Idempotency-Key header is required.") w)
        (λ given.
          catching register_error (
            RegistrationService.register x (undisturbed create_user) given payload.fields
              payload.password ip_address user_agent)
          >>= λ result. return (response_of result))
        (missing_key-among (if_given key) w)
        (λ given w'.
          raises_bind (among register_codes)
            (catching register_error
              (RegistrationService.register x (undisturbed create_user) given payload.fields
                payload.password ip_address user_agent)
              w')
            (λ result. return (response_of result))
            (raises_sub (among (409 ∷ 422 ∷ 503 ∷ 500 ∷ [])) (among register_codes) _
              (raises_map is_registration_error (among (409 ∷ 422 ∷ 503 ∷ 500 ∷ [])) register_error
                _
                (register-errors x w' create_user given payload.fields payload.password ip_address
                  user_agent (creating given))
                register_error-among)
              wider)
            (λ result w''. tt)))

request-among : (e : Error) → is_request_error e ≡ true → among (500 ∷ []) e ≡ true
unfolding is_integration_error
request-among e h = ground (arith, h)

nothing_given-among :
    (b : Bool) (w : World)
    → RaisesOnly
        (among (400 ∷ 503 ∷ []))
        (raise_if b (http 400 "Either email or username must be provided.") w).0
nothing_given-among b w = ground arith

unavailable :
    (e : Error)
    → is_integration_error e ≡ true
    → among (400 ∷ 503 ∷ []) (availability_error e) ≡ true
unavailable e h = ground (arith, availability_error-among e h)

module _ (users : UserDirectory) (law : RaisesIntegration users) where
  resolve_if-errors :
      (identifier : Option String) (w : World)
      → RaisesOnly is_integration_error (resolve_if users identifier w).0
  resolve_if-errors none w = tt
  resolve_if-errors (some identifier) w = law.resolving identifier

  resolve_unless-errors :
      (found : Option ℕ) (username : Option String) (w : World)
      → RaisesOnly is_integration_error (resolve_unless users found username w).0
  resolve_unless-errors none username w = resolve_if-errors username w
  resolve_unless-errors (some user_id) username w = tt

  pub check_availability-among :
      (email username : Option String) (w : World)
      → RaisesOnly
          (among (400 ∷ 503 ∷ []))
          (RegisterApi.check_availability users email username w).0
  unfolding RegisterApi.check_availability
  check_availability-among email username w =
      raises_bind (among (400 ∷ 503 ∷ []))
        (raise_if (not (is_found (if_given email)) && not (is_found (if_given username)))
          (http 400 "Either email or username must be provided.") w)
        (λ done.
          catching availability_error (
            resolve_if users (if_given email) >>= λ found.
            resolve_unless users found (if_given username))
          >>= λ user_id. return (not (is_found user_id)))
        (nothing_given-among (not (is_found (if_given email)) && not (is_found (if_given username)))
          w)
        (λ done w'.
          raises_bind (among (400 ∷ 503 ∷ []))
            (catching availability_error
              (resolve_if users (if_given email) >>= λ found.
                resolve_unless users found (if_given username))
              w')
            (λ (user_id : Option ℕ). return (not (is_found user_id)))
            (raises_map is_integration_error (among (400 ∷ 503 ∷ [])) availability_error _
              (raises_bind is_integration_error (resolve_if users (if_given email) w')
                (λ found. resolve_unless users found (if_given username))
                (resolve_if-errors (if_given email) w')
                (λ found w''. resolve_unless-errors found (if_given username) w''))
              unavailable)
            (λ user_id w''. tt))

  pub request_password_reset-among :
      (x : External) (identifier : String) (ip_address : Option String) (w : World)
      → RaisesOnly
          (among (500 ∷ []))
          (PasswordApi.request_password_reset x users identifier ip_address w).0
  unfolding PasswordApi.request_password_reset
  request_password_reset-among x identifier ip_address w =
      raises_session (among (500 ∷ []))
        (PasswordService.request_reset x users identifier ip_address none >>= λ result.
          return result.requested)
        w
        (raises_bind (among (500 ∷ []))
          (PasswordService.request_reset x users identifier ip_address none w)
          (λ (result : PasswordResetRequestResult). return result.requested)
          (raises_sub is_request_error (among (500 ∷ [])) _
            (request_reset-errors x w users identifier ip_address none (law.resolving identifier))
            request-among)
          (λ result w'. tt))
