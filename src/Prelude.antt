-- ===== src/Prelude.antt =====
-- Names shared by the other modules: the library's, passed on, with the tests, tables and list
-- lemmas of the children.
mod Tests
mod Tables
mod Sort
mod Text
mod Every
pub use Tests.*
unfoldable pub use Tables.*
unfoldable pub use Sort.*
unfoldable pub use Text.{
  is_space, is_empty, lstrip, rstrip, strip, rstrip_slash, remove_char, contains_char, every_char,
  contains, removeprefix, text_or, if_given,
}
unfoldable pub use Every.*
pub use Text.{strip_idem}
pub use Prim.Native.Nat.{ℕ, zero, suc, ◌+◌, ◌-◌, ◌*◌, ◌/◌, ◌≤◌, ◌<◌}
pub use Prim.Native.String.{String}
pub use mathlib.Core.Path.{◌≡◌, refl, sym, ap, ◌∙◌, subst}
pub use mathlib.Core.Logic.{◌≢◌, ◌↔◌, ◌⊎◌, inl, inr}
pub use mathlib.Core.Bool.{Bool, true, false, not, ◌&&◌, ◌||◌}
pub use mathlib.Core.Option.{Option, none, some}
pub use mathlib.Core.List.{List, [], ◌∷◌, ◌++◌, map}
pub use native.Mathlib.Omega.{arith}
pub use text.Mathlib.Text.{◌==◌ as str_eq}
pub use text.Mathlib.TextEquality.{eq_iff}
