-- ===== src/Tests/Sample.antt =====
-- A concrete instance of the libraries, of the user directory and of the stored data: one user, one
-- refresh token that was issued at the epoch, and one password reset.
use Prim.Native.String.{[] as empty, ◌∷◌ as text_cons}
use buildos_auth_service.Prelude.{
  ◌&&◌, leb, ℕ, zero, suc, ◌+◌, ◌≡◌, refl, ap, String, true, false, Option, none, some, [], ◌∷◌,
  map, str_eq, str_eq_self, if◌then◌else◌,
}
use buildos_auth_service.Core.Config.{Settings, days}
use buildos_auth_service.Core.Context
use buildos_auth_service.Models.{AuthCredential, RefreshToken, PasswordReset}
use buildos_auth_service.External.{
  External, IsLawful, Claims, ClaimValue, text, Decoded, payload, invalid_jwt, Verification,
  verified, verify_mismatch, get_claim, on_the_wire,
}
use buildos_auth_service.Database.{World, Result, ok}
use buildos_auth_service.Security.TokenValidation.RoundTrip.{claims}
use buildos_auth_service.Services.Context.{RequestContext, personal_context}
use buildos_auth_service.System.{CreateUser}
use buildos_auth_service.Services.UserDirectory.{UserDirectory, UserStatus}

abbrev pub sample_settings : Settings
sample_settings = record {
  service_name = "buildos-auth-service";
  environment = "development";
  jwt_secret_key = "secret";
  jwt_algorithm = "HS256";
  jwt_issuer = "buildos-auth-service";
  jwt_audience = "buildos";
  access_token_expire_minutes = 15;
  refresh_token_expire_days = 30;
  max_failed_login_attempts = 2;
  login_lockout_minutes = 15;
  login_rate_limit_window_minutes = 15;
  internal_api_key = "internal";
  password_reset_expire_minutes = 30;
  user_service_url = "http://users/";
  user_service_api_key = "users-key";
  user_service_id = "auth";
  session_service_url = "http://sessions/";
  session_service_api_key = "sessions-key";
  session_service_id = "auth";
}

-- A number as so many strokes.
unfoldable pub strokes : ℕ → String
strokes zero = empty
strokes (suc n) = text_cons "i" (strokes n)

unfoldable pub count_strokes : String → ℕ
count_strokes empty = 0
count_strokes (text_cons c s) = suc (count_strokes s)

count_strokes-strokes : (n : ℕ) → count_strokes (strokes n) ≡ n
unfolding strokes count_strokes
count_strokes-strokes zero = refl
count_strokes-strokes (suc n) = ap suc (count_strokes-strokes n)

abbrev claim_text : Option ClaimValue → String
claim_text (some (text s)) = s
claim_text _ = ""

abbrev verify : String → String → Verification
verify hash password = if str_eq hash password then verified else verify_mismatch

-- The libraries without a token that decodes: a hash is its text, and a token the id in it.
abbrev base : External
base = record {
  settings = sample_settings;
  uuid4 = λ d. d + 1;
  uuid_text = strokes;
  parse_uuid = λ s. some (count_strokes s);
  sha256_hex = λ s. s;
  argon2_hash = λ salt password. password;
  argon2_verify = verify;
  argon2_needs_rehash = λ hash. false;
  jwt_encode = λ p key algorithm. claim_text (get_claim "jti" p);
  jwt_decode = λ clock token options. invalid_jwt;
  token_urlsafe = λ size d. strokes d;
  from_isoformat = λ s. some (count_strokes s);
  isoformat = strokes;
  lower = λ s. s;
  is_digit = λ c. leb b'0' c && leb c b'9';
}

-- The claims of the token that was issued to user 7 as draw 1, of a type.
abbrev pub sample_claims : String → Claims
sample_claims token_type = claims base token_type 7 Context.personal none none 0 (days 30) 1

abbrev decode_sample : String → String → Decoded
decode_sample token_type token =
    if str_eq token "ii" then payload (map on_the_wire (sample_claims token_type)) else invalid_jwt

-- The libraries where that token decodes.
abbrev pub sample : String → External
sample token_type = record base {
  jwt_decode = λ clock token options. decode_sample token_type token;
}

pub sample-IsLawful : (token_type : String) → IsLawful (sample token_type)
sample-IsLawful token_type = record {
  parse_uuid-uuid_text = λ id. ap some (count_strokes-strokes id);
  argon2_verify-argon2_hash = λ salt password. verify_self password;
}
  where
    verify_self : (password : String) → verify password password ≡ verified
    verify_self password = rw (str_eq_self password) refl

abbrev pub ann : AuthCredential
ann = record {
  id = 1;
  user_id = 7;
  password_hash = "right";
  is_active = true;
  is_locked = false;
  failed_login_count = 0;
  locked_until = none;
  password_changed_at = 0;
  last_login_at = none;
  created_at = 0;
  updated_at = 0;
}

-- A lock of the same credential that is over at the time 5.
abbrev pub locked_ann : AuthCredential
locked_ann = record ann { is_locked = true; failed_login_count = 2; locked_until = some 5 }

abbrev pub token_row : RefreshToken
token_row = record {
  id = 50;
  user_id = 7;
  context_type = Context.personal;
  organization_id = none;
  membership_id = none;
  token_hash = "ii";
  expires_at = days 30;
  revoked_at = none;
  is_revoked = false;
  created_at = 0;
  last_used_at = none;
  replaced_by_token_id = none;
}

abbrev pub spent_row : RefreshToken
spent_row = record token_row { is_revoked = true; revoked_at = some 3 }

abbrev pub reset_row : PasswordReset
reset_row = record {
  id = 60;
  user_id = 7;
  token_hash = "reset";
  expires_at = 1000;
  used_at = none;
  is_used = false;
  created_at = 0;
  requested_ip = none;
}

abbrev pub nothing_stored : World
nothing_stored = record {
  credentials = [];
  login_attempts = [];
  auth_events = [];
  security_events = [];
  refresh_tokens = [];
  password_resets = [];
  clock = 0;
  draws = 0;
}

abbrev pub stored : World
stored = record nothing_stored {
  credentials = ann ∷ [];
  refresh_tokens = token_row ∷ [];
  password_resets = reset_row ∷ [];
  clock = 10;
  draws = 5;
}

abbrev pub spent_world : World
spent_world = record stored { refresh_tokens = spent_row ∷ [] }

abbrev pub ann_status : UserStatus
ann_status = record {
  user_id = 7;
  status = "active";
  is_active = true;
  status_changed_at = none;
  verification = [];
}

-- The directory knows "ann" as user 7, with a status.
abbrev pub directory : UserStatus → UserDirectory
directory status = record {
  resolve_identifier = λ identifier. ok (if str_eq identifier "ann" then some 7 else none);
  get_user_status = λ user_id. ok status;
}

abbrev pub sessions : ℕ → ℕ → ℕ → Result ℕ
sessions user_id device_id expires_at = ok 1

abbrev pub context : RequestContext
context = personal_context none none

-- The User Service creates user 8.
abbrev pub created : CreateUser
created key fields =
    ok (record { user_id = 8; public_id = "u-8"; status = "pending"; created_at = 0 })
