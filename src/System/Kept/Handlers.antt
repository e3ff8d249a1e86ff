-- ===== src/System/Kept/Handlers.antt =====
-- The handlers of the endpoints, from what their services keep.
use buildos_auth_service.Prelude.{
  ℕ, ◌+◌, ◌≡◌, refl, String, Bool, Option, none, some, arith, Option-cases, sym, subst, inl, inr,
  true, false, if_given, not, ◌==◌, Bool-cases,
}
use buildos_auth_service.Core.Context
use buildos_auth_service.Core.Exceptions.{Error, http}
use buildos_auth_service.External.{External}
use buildos_auth_service.Database.{
  World, Action, Result, ok, err, with_session, rollback, bind-world, raise_if, or_raise, ◌>>=◌,
}
use buildos_auth_service.Services.UserDirectory.{UserDirectory}
use buildos_auth_service.Services.Context.{personal_context}
use buildos_auth_service.Services.Token.{TokenPair, issue_tokens}
use buildos_auth_service.Services.Login as LoginService
use buildos_auth_service.Services.CredentialSync.{sync_status}
use buildos_auth_service.Services.Registration as RegistrationService
use buildos_auth_service.Services.Authentication.{AuthenticationResult}
use buildos_auth_service.Api.Errors.{catching, login_error}
use buildos_auth_service.Api.Auth.{
  device_or_draw, CreateSession, LoginRequest, login_handler, answer_login, issue_and_answer,
  open_session,
}
use buildos_auth_service.Api.Register.{RegisterRequest, register_handler}
use buildos_auth_service.Api.Status as StatusApi
use buildos_auth_service.Api.Status.{UserStatusUpdateRequest}
use buildos_auth_service.System.{CreateUser, undisturbed}
use buildos_auth_service.System.Kept.{IsKept}
use buildos_auth_service.System.Kept.Services.{login_keeps}

module _ (x : External) (Q : World → Type 0) (kept : IsKept x Q) where
  pub session_keeps {ℓ} :
      {A : Type ℓ} (handler : Action A) (w : World)
      → Q w
      → Q (handler w).1
      → Q (with_session handler w).1
  unfolding with_session rollback
  session_keeps {A = A} handler w before after = go (handler w) after
    where
      go :
          (m : Result A × World)
          → Q m.1
          → Q
              (elim m.0 as (λ r. Result A × World) [
                | ok a ↦ (ok a, m.1)
                | err e ↦ (err e, rollback w m.1)
              ]).1
      go (ok a, w') h = h
      go (err e, w') h = kept.drawn w'.draws w before

  raise_if_keeps : (b : Bool) (e : Error) (w : World) → Q w → Q (raise_if b e w).1
  raise_if_keeps true e w h = h
  raise_if_keeps false e w h = h

  or_raise_keeps : {A : Type 0} (o : Option A) (e : Error) (w : World) → Q w → Q (or_raise o e w).1
  or_raise_keeps none e w h = h
  or_raise_keeps (some a) e w h = h

  module _ (create_session : CreateSession) (payload : LoginRequest) where
    device_or_draw_keeps : (id : Option ℕ) (w : World) → Q w → Q (device_or_draw x id w).1
    device_or_draw_keeps none w h = kept.drawn (w.draws + 1) w h
    device_or_draw_keeps (some id) w h = h

    open_session-world :
        (user_id : ℕ) (pair : TokenPair) (w : World)
        → (open_session x create_session payload user_id pair w).1
          ≡ (device_or_draw x payload.device_id w).1
    unfolding open_session
    open_session-world user_id pair w = ground arith

    open_session_keeps :
        (user_id : ℕ) (pair : TokenPair) (w : World)
        → Q w
        → Q (open_session x create_session payload user_id pair w).1
    open_session_keeps user_id pair w h =
        subst Q (sym (open_session-world user_id pair w))
          (device_or_draw_keeps payload.device_id w h)

    issue_and_answer_keeps :
        (user_id : ℕ) (w : World) → Q w → Q (issue_and_answer x create_session payload user_id w).1
    unfolding issue_and_answer
    issue_and_answer_keeps user_id w h =
        bind-world Q (issue_tokens x user_id Context.personal none none none w)
          (λ pair. open_session x create_session payload user_id pair)
          (kept.issued user_id Context.personal none none none w refl h)
          (λ pair w' h'. open_session_keeps user_id pair w' h')

    answer_login_keeps :
        (authentication : AuthenticationResult) (w : World)
        → Q w
        → Q (answer_login x create_session payload authentication w).1
    unfolding answer_login
    answer_login_keeps authentication w h =
        bind-world Q
          (raise_if (not authentication.authenticated) (http 401 "Invalid credentials.") w)
          (λ done.
            or_raise authentication.user_id
              (http 500 "Authentication completed without a user identity.")
            >>= issue_and_answer x create_session payload)
          (raise_if_keeps (not authentication.authenticated) (http 401 "Invalid credentials.") w h)
          (λ done w' h'.
            bind-world Q
              (or_raise authentication.user_id
                (http 500 "Authentication completed without a user identity.") w')
              (issue_and_answer x create_session payload)
              (or_raise_keeps authentication.user_id
                (http 500 "Authentication completed without a user identity.") w' h')
              (λ user_id w'' h''. issue_and_answer_keeps user_id w'' h''))

    pub login_handler_keeps :
        (users : UserDirectory) (ip_address user_agent : Option String) (w : World)
        → Q w
        → Q (login_handler x users create_session payload ip_address user_agent w).1
    unfolding login_handler
    login_handler_keeps users ip_address user_agent w h =
        bind-world Q
          (catching login_error
            (LoginService.login x users payload.identifier payload.password
              (personal_context ip_address user_agent))
            w)
          (answer_login x create_session payload)
          (login_keeps x Q kept users payload.identifier payload.password
            (personal_context ip_address user_agent) w h)
          (λ authentication w' h'. answer_login_keeps authentication w' h')

  register_handler-world :
      (create_user : CreateUser) (key : Option String) (given : String) (payload : RegisterRequest)
      (ip_address user_agent : Option String) (w : World)
      → if_given key ≡ some given
      → (register_handler x (undisturbed create_user) key payload ip_address user_agent w).1
        ≡ (RegistrationService.register x
            (undisturbed create_user)
            given
            payload.fields
            payload.password
            ip_address
            user_agent
            w).1
  unfolding register_handler
  register_handler-world create_user key given payload ip_address user_agent w e = ground (arith, e)

  pub register_handler_keeps :
      (create_user : CreateUser) (key : Option String) (payload : RegisterRequest)
      (ip_address user_agent : Option String) (w : World)
      → Q w
      → Q (register_handler x (undisturbed create_user) key payload ip_address user_agent w).1
  unfolding register_handler
  register_handler_keeps create_user key payload ip_address user_agent w h =
      elim (Option-cases (if_given key)) [
        | inl missing ↦ rw missing h
        | inr (given, e) ↦
            subst Q
              (sym (register_handler-world create_user key given payload ip_address user_agent w e))
              (kept.registered create_user given payload.fields payload.password ip_address
                user_agent w h)
      ]

  update_handler-world :
      (user_id : ℕ) (payload : UserStatusUpdateRequest) (w : World)
      → (user_id == payload.user_id) ≡ true
      → (StatusApi.update_handler user_id payload w).1
        ≡ (sync_status user_id payload.status payload.is_active w).1
  unfolding StatusApi.update_handler
  update_handler-world user_id payload w same = ground (arith, same)

  pub update_handler_keeps :
      (user_id : ℕ) (payload : UserStatusUpdateRequest) (w : World)
      → Q w
      → Q (StatusApi.update_handler user_id payload w).1
  unfolding StatusApi.update_handler
  update_handler_keeps user_id payload w h = elim (Bool-cases (user_id == payload.user_id)) [
    | inl same ↦
        subst Q (sym (update_handler-world user_id payload w same))
          (kept.synchronized user_id payload.status payload.is_active w h)
    | inr other ↦ rw other h
  ]
