-- ===== src/Services/Token/Checks.antt =====
-- The checks that a presented refresh token passes before it is rotated or revoked.
use buildos_auth_service.Prelude.{ℕ, ◌<◌, ◌≡◌, String, false, some, find, arith}
use buildos_auth_service.External.{External}
use buildos_auth_service.Database.{World, IfReturns}
use buildos_auth_service.Repositories.Token.{has_hash}
use buildos_auth_service.Security.TokenValidation.{validate_refresh_token}
use buildos_auth_service.Services.Token.{Presented, check_refresh, hash_refresh_token}

-- What a presented token has shown once its checks have passed: nothing was written, and its hash
-- is that of a stored row that is active, unexpired and of the token's subject.
abbrev pub Accepted : External → String → ℕ → World → Presented → World → Type 0
Accepted x token at w c w' =
    (w' ≡ w)
    × (find (has_hash (hash_refresh_token x token)) w.refresh_tokens ≡ some c.stored)
    × (c.stored.is_revoked ≡ false)
    × (at < c.stored.expires_at)
    × (c.stored.user_id ≡ c.user_id)

module _ (x : External) where
  validate_refresh_token-world :
      (token : String) (w : World) → (validate_refresh_token x token w).1 ≡ w
  unfolding validate_refresh_token
  validate_refresh_token-world token w = ground arith

  -- If the checks of `refresh` return, they wrote nothing, and the hash of the presented token finds
  -- a stored row that is not revoked, has not expired at the time, and belongs to the user that the
  -- token names.
  pub check_refresh-Accepted :
      (token : String) (at : ℕ) (w : World)
      → IfReturns (Accepted x token at w) (check_refresh x token at w)
  unfolding check_refresh
  check_refresh-Accepted token at w = ground arith

  pub check_refresh-world :
      (token : String) (at : ℕ) (w : World) → (check_refresh x token at w).1 ≡ w
  unfolding check_refresh
  check_refresh-world token at w = ground arith
