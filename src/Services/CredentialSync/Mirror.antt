-- ===== src/Services/CredentialSync/Mirror.antt =====
-- A credential's active flag against the user's status, and the statuses that may log in.
use mathlib.Core.Option
use buildos_auth_service.Prelude.{
  ℕ, ◌≡◌, refl, String, Bool, Option, none, some, find, find-update, arith, eq_iff, eq_self,
}
use buildos_auth_service.Models.{AuthCredential}
use buildos_auth_service.Database.{World, Returns}
use buildos_auth_service.Repositories.Credential
use buildos_auth_service.Repositories.Credential.{belongs_to}
use buildos_auth_service.Services.CredentialSync.{sync_status, sync_credential, desired_active}
use buildos_auth_service.Services.Login.{is_allowed_status}

-- The credential with the active flag that the status asks for.
abbrev pub mirrored : String → AuthCredential → AuthCredential
mirrored user_status c = record c { is_active = desired_active user_status }

module _ (user_id : ℕ) (user_status : String) where
  sync_credential-mirrored :
      (found : Option AuthCredential) (w : World)
      → find (belongs_to user_id) w.credentials ≡ found
      → Returns
          (λ done w'.
            find (belongs_to user_id) w'.credentials ≡ Option.map (mirrored user_status) found)
          (sync_credential user_status found w)
  unfolding Credential.activate Credential.deactivate
  sync_credential-mirrored none w e = ground arith
  sync_credential-mirrored (some c) w e = grind (arith, find-update, eq_self)

  -- After a status update the user's credential, if there is one, is active exactly if the status
  -- asks for it, and is otherwise as it was; the flag that the caller sends
  -- has no effect on this.
  pub sync_status-mirrored :
      (is_active : Bool) (w : World)
      → Returns
          (λ done w'.
            find (belongs_to user_id) w'.credentials
            ≡ Option.map (mirrored user_status) (find (belongs_to user_id) w.credentials))
          (sync_status user_id user_status is_active w)
  unfolding sync_status
  sync_status-mirrored is_active w =
      sync_credential-mirrored (find (belongs_to user_id) w.credentials) w refl

-- The statuses that keep a credential active are exactly those that the login service admits; any
-- other text counts as not active and is not admitted.
pub desired_active-is_allowed_status : (s : String) → desired_active s ≡ is_allowed_status s
unfolding desired_active is_allowed_status
desired_active-is_allowed_status s = ground (
  arith,
  eq_iff "pending" s,
  eq_iff "verification_pending" s,
  eq_iff "active" s,
  eq_iff s "pending",
  eq_iff s "verification_pending",
  eq_iff s "active",
)
