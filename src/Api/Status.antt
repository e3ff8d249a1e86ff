-- ===== src/Api/Status.antt =====
-- app/api/internal/endpoints/status.py
pub mod Guard
use buildos_auth_service.Prelude.{ℕ, String, Bool, true, not, ◌==◌, Option}
use buildos_auth_service.Core.Exceptions.{http}
use buildos_auth_service.Database.{Action, raise_if, ◌>>◌, return, with_session}
use buildos_auth_service.Services.CredentialSync.{sync_status}
use buildos_auth_service.External.{External}
use buildos_auth_service.Api.Dependencies.{verify_internal_service}
use buildos_auth_service.Api.Errors.{catching}

pub record UserStatusUpdateRequest : Type 0 where
  pub user_id : ℕ
  pub status : String
  pub is_active : Bool

-- The handler, without its session. The response is the field `success`.
unfoldable pub update_handler : ℕ → UserStatusUpdateRequest → Action Bool
unfolding sync_status
update_handler user_id payload = do
  raise_if (not (user_id == payload.user_id))
      (http 422 "User ID in path does not match request body.")
  catching (λ e. http 500 "Failed to synchronize credential status.")
      (sync_status user_id payload.status payload.is_active)
  return true

-- The request, with the headers `Authorization` and `X-Service-ID`.
unfoldable pub update_user_status :
    External
    → (api_key service_id : Option String) (user_id : ℕ) (payload : UserStatusUpdateRequest)
    → Action Bool
unfolding verify_internal_service update_handler with_session
update_user_status x api_key service_id user_id payload =
    with_session (verify_internal_service x api_key service_id >> update_handler user_id payload)
