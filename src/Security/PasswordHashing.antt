-- ===== src/Security/PasswordHashing.antt =====
-- app/security/password_hashing.py. Argon2 draws a salt for each hash.
use buildos_auth_service.Prelude.{String, Bool, true, false}
use buildos_auth_service.External.{
  External, Verification, verified, verify_mismatch, verification_error, invalid_hash,
}
use buildos_auth_service.Database.{Action, draw, ◌>>=◌, return}

unfoldable pub hash_password : External → String → Action String
hash_password x password = do salt ← draw; return (x.argon2_hash salt password)

-- The three exceptions are caught.
abbrev pub succeeded : Verification → Bool
succeeded verified = true
succeeded verify_mismatch = false
succeeded verification_error = false
succeeded invalid_hash = false

unfoldable pub verify_password : External → String → String → Bool
verify_password x password password_hash = succeeded (x.argon2_verify password_hash password)

unfoldable pub needs_rehash : External → String → Bool
needs_rehash x password_hash = x.argon2_needs_rehash password_hash
