-- ===== src/External.antt =====
-- What the service calls and does not implement: Argon2 (argon2), SHA-256 and `token_urlsafe`, JWT
-- (pyjwt), UUIDs, dates, Unicode's tables and the settings of the process. They are parameters of
-- the model: `External` has the functions, `IsLawful` and `Decodes` the documented behaviour that
-- theorems rely on. A random draw is a function of the draw's number.
use buildos_auth_service.Prelude.{
  ℕ, ◌*◌, ◌/◌, ◌<◌, ◌≤◌, ◌≡◌, String, Bool, true, false, ◌&&◌, Option, none, some, List, [], ◌∷◌,
  map, str_eq, if◌then◌else◌,
}
use buildos_auth_service.Core.Config.{Settings}

-- How `PasswordHasher.verify` ends: it returns True, or raises one of three exceptions.
pub data Verification : Type 0 where
  verified verify_mismatch verification_error invalid_hash : Verification

-- A value of a JWT claim; `other` is a JSON value of any other kind.
pub data ClaimValue : Type 0 where
  text : String → ClaimValue
  number : ℕ → ClaimValue
  datetime : ℕ → ClaimValue
  null other : ClaimValue

-- `dict[str, object]`
abbrev pub Claims : Type 0
Claims = List (String × ClaimValue)

-- `payload.get(name)`
unfoldable pub get_claim : String → Claims → Option ClaimValue
get_claim name [] = none
get_claim name ((k, v) ∷ rest) = if str_eq k name then some v else get_claim name rest

-- The arguments of `jwt.decode` beside the token; the list of required claims is the same in every
-- call.
pub record DecodeOptions : Type 0 where
  pub key : String
  pub algorithm : String
  pub issuer : String
  pub audience : String
  pub required : List String

-- How `jwt.decode` ends: a payload, ExpiredSignatureError, or another InvalidTokenError.
pub data Decoded : Type 0 where
  payload : Claims → Decoded
  expired_signature invalid_jwt : Decoded

pub record External : Type 0 where
  pub settings : Settings
  pub uuid4 : ℕ → ℕ
  pub uuid_text : ℕ → String
  pub parse_uuid : String → Option ℕ
  pub sha256_hex : String → String
  pub argon2_hash : ℕ → String → String
  pub argon2_verify : String → String → Verification
  pub argon2_needs_rehash : String → Bool
  pub jwt_encode : Claims → String → String → String
  pub jwt_decode : ℕ → String → DecodeOptions → Decoded
  pub token_urlsafe : ℕ → ℕ → String
  -- `datetime.fromisoformat`, None where it raises, and `datetime.isoformat`.
  pub from_isoformat : String → Option ℕ
  pub isoformat : ℕ → String
  -- Unicode's tables: `str.lower`, and `str.isdigit` of one character.
  pub lower : String → String
  pub is_digit : ℕ → Bool

abbrev pub is_there : Option ClaimValue → Bool
is_there none = false
is_there (some v) = true

-- Each of the names is a claim of the payload.
abbrev pub has_all : List String → Claims → Bool
has_all [] p = true
has_all (name ∷ names) p = is_there (get_claim name p) && has_all names p

-- A claim as it comes back: JWT writes a datetime as whole seconds.
abbrev pub on_the_wire : String × ClaimValue → String × ClaimValue
on_the_wire (k, datetime t) = (k, number (t / 1000000))
on_the_wire (k, v) = (k, v)

-- The documented behaviour of the libraries, as far as theorems rely on it.
pub record IsLawful (x : External) : Type 0 where
  -- str() of a UUID reads back as the UUID.
  pub parse_uuid-uuid_text : (id : ℕ) → x.parse_uuid (x.uuid_text id) ≡ some id
  -- A hash verifies the password that it was made from.
  pub argon2_verify-argon2_hash :
      (salt : ℕ) (password : String)
      → x.argon2_verify (x.argon2_hash salt password) password ≡ verified

-- The documented behaviour of pyjwt for a payload: signed and decoded with the same key, it comes
-- back if the issuer and the audience are the expected ones, the required claims are there, it was
-- not issued in the future, and the clock has not reached its expiry, which is cut to a whole second.
abbrev pub Decodes : External → Claims → Type 0
Decodes x p =
    (clock issued expires : ℕ) (options : DecodeOptions)
    → get_claim "iss" p ≡ some (text options.issuer)
    → get_claim "aud" p ≡ some (text options.audience)
    → get_claim "iat" p ≡ some (datetime issued)
    → get_claim "exp" p ≡ some (datetime expires)
    → has_all options.required p ≡ true
    → issued ≤ clock
    → clock < expires / 1000000 * 1000000
    → x.jwt_decode clock (x.jwt_encode p options.key options.algorithm) options
      ≡ payload (map on_the_wire p)
