-- ===== src/Schemas/Limits.antt =====
-- `Field(min_length=…, max_length=…)`
use Prim.Native.String.{count}
use buildos_auth_service.Prelude.{ℕ, String, Bool, true, ◌&&◌, Option, none, some, leb}

abbrev pub has_length : ℕ → ℕ → String → Bool
has_length least most s = leb least (count s) && leb (count s) most

-- The same for a field that may be None.
abbrev pub has_length_if : ℕ → ℕ → Option String → Bool
has_length_if least most none = true
has_length_if least most (some s) = has_length least most s
