-- ===== src/Services/CredentialSync.antt =====
-- app/services/credential_sync_service.py
pub mod Mirror
use buildos_auth_service.Prelude.{
  ℕ, String, Bool, true, false, Option, none, some, List, [], ◌∷◌, str_eq, bool_eq, if◌then◌else◌,
}
use buildos_auth_service.Models.{AuthCredential}
use buildos_auth_service.Database.{Action, ◌>>=◌, ◌>>◌, return}
use buildos_auth_service.Repositories.Credential

abbrev pub status_to_active : List (String × Bool)
status_to_active =
    ("pending", true)
    ∷ ("verification_pending", true)
    ∷ ("active", true)
    ∷ ("suspended", false)
    ∷ ("restricted", false)
    ∷ ("deactivated", false)
    ∷ ("deleted", false)
    ∷ []

-- `dict.get(key, default)`
unfoldable pub get_status : String → Bool → List (String × Bool) → Bool
get_status key default [] = default
get_status key default ((k, v) ∷ rest) = if str_eq k key then v else get_status key default rest

unfoldable pub desired_active : String → Bool
unfolding get_status
desired_active user_status = get_status user_status false status_to_active

abbrev pub sync_credential : String → Option AuthCredential → Action (Unit {0})
sync_credential user_status none = return tt
sync_credential user_status (some credential) =
    if bool_eq credential.is_active (desired_active user_status)
    then return tt
    else if desired_active user_status
    then Credential.activate credential >> return tt
    else Credential.deactivate credential >> return tt

-- The argument `is_active` is deleted unread.
unfoldable pub sync_status : ℕ → String → Bool → Action (Unit {0})
unfolding Credential.get_by_user_id Credential.activate Credential.deactivate desired_active
sync_status user_id user_status is_active = do
  credential ← Credential.get_by_user_id user_id
  sync_credential user_status credential
