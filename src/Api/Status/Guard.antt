-- ===== src/Api/Status/Guard.antt =====
-- Who may update a user's status, and what the update does.
use mathlib.Core.Option
use buildos_auth_service.Prelude.{
  Bool-cases, inl, inr, ℕ, ◌≡◌, String, Bool, true, false, not, ◌&&◌, ◌||◌, ◌==◌, Option, none,
  some, find, arith, str_eq, is_empty,
}
use buildos_auth_service.Core.Exceptions.{http}
use buildos_auth_service.External.{External}
use buildos_auth_service.Database.{
  World, Action, ◌>>◌, Result, ok, err, Returns, rollback, with_session,
}
use buildos_auth_service.Repositories.Credential.{belongs_to}
use buildos_auth_service.Services.CredentialSync.{sync_status}
use buildos_auth_service.Services.CredentialSync.Mirror.{mirrored, sync_status-mirrored}
use buildos_auth_service.Api.Dependencies.{without_bearer, verify_internal_service}
use buildos_auth_service.Api.Status.{UserStatusUpdateRequest, update_handler, update_user_status}

-- The two headers of a caller that has the internal key and names itself.
abbrev pub is_internal : External → (api_key service_id : Option String) → Bool
is_internal x (some key) (some id) =
    not (is_empty key)
    && not (is_empty id)
    && str_eq (without_bearer key) x.settings.internal_api_key
is_internal x api_key service_id = false

-- The answer is a status 401 or 422, and nothing has changed.
abbrev pub IsRefused : World → Result Bool × World → Type 0
IsRefused w (err (http code detail), w') = (code == 401 || code == 422 ≡ true) × (w' ≡ w)
IsRefused w _ = ⊥

-- The update returns, and the user's credential is as the status asks.
abbrev pub IsApplied : ℕ → UserStatusUpdateRequest → World → Result Bool × World → Type 0
IsApplied user_id payload w m =
    Returns
      (λ done w'.
        find (belongs_to user_id) w'.credentials
        ≡ Option.map (mirrored payload.status) (find (belongs_to user_id) w.credentials))
      m

module _ (x : External) (user_id : ℕ) (payload : UserStatusUpdateRequest) where
  updated :
      (w : World)
      → Returns
          (λ done w'.
            find (belongs_to user_id) w'.credentials
            ≡ Option.map (mirrored payload.status) (find (belongs_to user_id) w.credentials))
          (sync_status user_id payload.status payload.is_active w)
  updated w = sync_status-mirrored user_id payload.status payload.is_active w

  verify-accepted :
      (api_key service_id : Option String) (w : World)
      → is_internal x api_key service_id ≡ true
      → verify_internal_service x api_key service_id w ≡ (ok true, w)
  unfolding verify_internal_service
  verify-accepted none service_id w accepted = ground arith
  verify-accepted (some key) none w accepted = ground arith
  verify-accepted (some key) (some id) w accepted = ground arith

  verify-IsRefused :
      (api_key service_id : Option String) (w : World)
      → is_internal x api_key service_id ≡ false
      → IsRefused w (verify_internal_service x api_key service_id w)
  unfolding verify_internal_service
  verify-IsRefused none service_id w refused = ground arith
  verify-IsRefused (some key) none w refused = ground arith
  verify-IsRefused (some key) (some id) w refused = ground arith

  handler-IsApplied :
      (w : World)
      → (user_id == payload.user_id) ≡ true
      → IsApplied user_id payload w (update_handler user_id payload w)
  unfolding update_handler
  handler-IsApplied w same = ground (arith, same, updated w)

  handler-IsRefused :
      (w : World)
      → (user_id == payload.user_id) ≡ false
      → IsRefused w (update_handler user_id payload w)
  unfolding update_handler
  handler-IsRefused w other = ground (arith, other)

  session-IsApplied :
      (w : World) (m : Action Bool)
      → IsApplied user_id payload w (m w)
      → IsApplied user_id payload w (with_session m w)
  unfolding with_session
  session-IsApplied w m h = ground (arith, h)

  session-IsRefused :
      (w : World) (m : Action Bool) → IsRefused w (m w) → IsRefused w (with_session m w)
  unfolding with_session rollback
  session-IsRefused w m h = ground (arith, h)

  then-IsApplied :
      (w : World) (check handler : Action Bool)
      → check w ≡ (ok true, w)
      → IsApplied user_id payload w (handler w)
      → IsApplied user_id payload w ((check >> handler) w)
  then-IsApplied w check handler e h = ground (arith, e, h)

  then-IsRefused :
      (w : World) (check handler : Action Bool)
      → check w ≡ (ok true, w)
      → IsRefused w (handler w)
      → IsRefused w ((check >> handler) w)
  then-IsRefused w check handler e h = ground (arith, e, h)

  check-IsRefused :
      (w : World) (check handler : Action Bool)
      → IsRefused w (check w)
      → IsRefused w ((check >> handler) w)
  check-IsRefused w check handler h = ground (arith, h)

  -- A status update whose caller has the internal key and names itself, and whose two user ids agree,
  -- returns, and the user's credential is active afterwards exactly if the status asks for it. Any
  -- other is answered with status 401 or 422, and nothing has changed.
  pub update_user_status-guard :
      (api_key service_id : Option String) (w : World)
      → ((is_internal x api_key service_id && (user_id == payload.user_id)) ≡ true
          → IsApplied user_id payload w (update_user_status x api_key service_id user_id payload w))
        × ((is_internal x api_key service_id && (user_id == payload.user_id)) ≡ false
            → IsRefused w (update_user_status x api_key service_id user_id payload w))
  unfolding update_user_status
  update_user_status-guard api_key service_id w =
      elim (Bool-cases (is_internal x api_key service_id)) [
        | inl accepted ↦ (
          (λ both. session-IsApplied w (check >> handler) (
              then-IsApplied w check handler (verify-accepted api_key service_id w accepted)
                (handler-IsApplied w (ground (arith, both, accepted))))),
          (λ neither. session-IsRefused w (check >> handler) (
              then-IsRefused w check handler (verify-accepted api_key service_id w accepted)
                (handler-IsRefused w (ground (arith, neither, accepted))))),
        )
        | inr refused ↦ (
          (λ both. absurd (ground (arith, both, refused))),
          (λ neither.
              session-IsRefused w (check >> handler)
                (check-IsRefused w check handler (verify-IsRefused api_key service_id w refused))),
        )
      ]
    where
      check : Action Bool
      check = verify_internal_service x api_key service_id

      handler : Action Bool
      handler = update_handler user_id payload
