-- ===== src/Integrations/Json.antt =====
-- JSON values, as `response.json()` returns them.
use buildos_auth_service.Prelude.{String, Bool, Option, none, some, str_eq, if◌then◌else◌}

-- A number stands as its text. `Fields` are the entries of a dict, so no key occurs twice.
mutual
  pub data Json : Type 0 where
    null : Json
    bool : Bool → Json
    number : String → Json
    str : String → Json
    arr : Items → Json
    obj : Fields → Json

  pub data Items : Type 0 where
    nil : Items
    cons : Json → Items → Items

  pub data Fields : Type 0 where
    end : Fields
    field : String → Json → Fields → Fields

-- `payload.get(name)`: a missing key and a JSON null are both None.
unfoldable pub get : String → Fields → Json
get name end = null
get name (field k v rest) = if str_eq k name then v else get name rest

-- `isinstance(value, str)` and `isinstance(value, dict)`
abbrev pub as_str : Json → Option String
as_str (str s) = some s
as_str _ = none

abbrev pub as_dict : Json → Option Fields
as_dict (obj fields) = some fields
as_dict _ = none

abbrev pub as_bool : Json → Option Bool
as_bool (bool b) = some b
as_bool _ = none
