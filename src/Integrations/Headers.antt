-- ===== src/Integrations/Headers.antt =====
-- `_headers` of the two clients, which differ in the messages and in one header.
use Prim.Native.String.{◌++◌ as text_append}
use text.Mathlib.Text.{starts_with}
use buildos_auth_service.Prelude.{String, List, ◌∷◌, is_empty, if◌then◌else◌}
use buildos_auth_service.Core.Exceptions.{integration}
use buildos_auth_service.Database.{Result, ok, err}

-- The API key with the prefix "Bearer ", unless it has it in some case of letters.
unfoldable pub bearer : (String → String) → String → String
bearer lower api_key =
    if starts_with (lower api_key) "bearer " then api_key else text_append "Bearer " api_key

-- With the names of the two settings, for the messages, and the headers that follow.
unfoldable pub headers :
    (String → String)
    → (key_name id_name api_key service_id : String) → List (String × String)
    → Result (List (String × String))
unfolding bearer
headers lower key_name id_name api_key service_id rest =
    if is_empty api_key
    then err (integration (text_append key_name " is not configured."))
    else if is_empty service_id
    then err (integration (text_append id_name " is not configured."))
    else ok (
        ("Authorization", bearer lower api_key)
        ∷ ("X-Service-ID", service_id)
        ∷ ("Accept", "application/json")
        ∷ rest)
