-- ===== src/Prelude/Text.antt =====
-- The methods of Python's `str` that the code calls, by code point.
use Prim.Native.Char.{Char, code}
use Prim.Native.String.{String, [], ◌∷◌, slice, len}
use Prim.Native.Nat.{ℕ}
use mathlib.Core.Path.{◌≡◌, refl, ap, ◌∙◌}
use mathlib.Core.Logic.{inl, inr}
use mathlib.Core.Bool.{Bool, true, false, ◌&&◌, ◌||◌}
use mathlib.Core.Option.{Option, none, some}
use native.Mathlib.Omega.{arith}
use text.Mathlib.Text.{starts_with, find?}
use text.Mathlib.TextLemmas.{nil≢cons, tail-eq_of_cons-eq}
use buildos_auth_service.Prelude.Tests.{◌==◌, leb, if◌then◌else◌, Bool-cases, is_found}

abbrev between : ℕ → ℕ → ℕ → Bool
between low high c = leb low c && leb c high

-- The characters that `str.isspace` accepts, which `str.strip` removes.
unfoldable pub is_space : ℕ → Bool
is_space c =
    between 9 13 c
    || between 28 32 c
    || c == 0x85
    || c == 0xa0
    || c == 0x1680
    || between 0x2000 0x200a c
    || c == 0x2028
    || c == 0x2029
    || c == 0x202f
    || c == 0x205f
    || c == 0x3000

abbrev pub is_empty : String → Bool
is_empty [] = true
is_empty (c ∷ s) = false

unfoldable pub lstrip : String → String
lstrip [] = []
lstrip (c ∷ s) = if is_space (code c) then lstrip s else c ∷ s

-- What is left of a character and the rest, where the rest is stripped on its right.
abbrev pub keep_unless : Bool → Char → String → String
keep_unless drop c rest = if drop && is_empty rest then [] else c ∷ rest

unfoldable pub rstrip : String → String
rstrip [] = []
rstrip (c ∷ s) = keep_unless (is_space (code c)) c (rstrip s)

-- `value.strip()`
unfoldable pub strip : String → String
unfolding lstrip rstrip
strip s = lstrip (rstrip s)

-- `value.rstrip("/")`
unfoldable pub rstrip_slash : String → String
rstrip_slash [] = []
rstrip_slash (c ∷ s) = keep_unless (code c == b'/') c (rstrip_slash s)

-- `value.replace(c, "")` for a text of one character.
unfoldable pub remove_char : ℕ → String → String
remove_char k [] = []
remove_char k (c ∷ s) = let rest = remove_char k s in if code c == k then rest else c ∷ rest

unfoldable pub contains_char : ℕ → String → Bool
contains_char k [] = false
contains_char k (c ∷ s) = code c == k || contains_char k s

-- Every character passes the test, and there is one.
unfoldable pub every_char : (ℕ → Bool) → String → Bool
every_char p [] = true
every_char p (c ∷ s) = p (code c) && every_char p s

-- `part in value`
abbrev pub contains : String → String → Bool
contains value part = is_found (find? value part)

-- `value.removeprefix(prefix)`
unfoldable pub removeprefix : String → String → String
removeprefix prefix s = if starts_with s prefix then slice s (len prefix) (len s) else s

-- `value or default` for a text that may be None.
abbrev pub text_or : Option String → String → String
text_or none default = default
text_or (some s) default = if is_empty s then default else s

rstrip_idem : (s : String) → rstrip (rstrip s) ≡ rstrip s
unfolding rstrip
rstrip_idem [] = refl
rstrip_idem (c ∷ s) = ground (arith, rstrip_idem s)

keep_unless-tail :
    (drop : Bool) (c : Char) (rest s : String) → keep_unless drop c rest ≡ c ∷ s → rest ≡ s
keep_unless-tail false c rest s h = tail-eq_of_cons-eq h
keep_unless-tail true c [] s h = absurd (nil≢cons h)
keep_unless-tail true c (d ∷ rest) s h = tail-eq_of_cons-eq h

-- The rest of a text that ends in no space ends in none.
rstrip-tail : (c : Char) (s : String) → rstrip (c ∷ s) ≡ c ∷ s → rstrip s ≡ s
unfolding rstrip
rstrip-tail c s h = keep_unless-tail (is_space (code c)) c (rstrip s) s h

rstrip-lstrip : (s : String) → rstrip s ≡ s → rstrip (lstrip s) ≡ lstrip s
unfolding lstrip
rstrip-lstrip [] h = h
rstrip-lstrip (c ∷ s) h = elim (Bool-cases (is_space (code c))) [
  | inl space ↦ rw space (rstrip-lstrip s (rstrip-tail c s h))
  | inr other ↦ rw other h
]

lstrip_idem : (s : String) → lstrip (lstrip s) ≡ lstrip s
unfolding lstrip
lstrip_idem [] = refl
lstrip_idem (c ∷ s) = ground (arith, lstrip_idem s)

pub strip_idem : (s : String) → strip (strip s) ≡ strip s
unfolding strip
strip_idem s = ap lstrip (rstrip-lstrip (rstrip s) (rstrip_idem s)) ∙ lstrip_idem (rstrip s)

-- A text that Python takes for true: present and not empty.
abbrev pub if_given : Option String → Option String
if_given none = none
if_given (some s) = if is_empty s then none else some s
