-- ===== src/Services/Token/Revocation.antt =====
-- Revocation: tokens that were rotated or revoked, presented again.
use buildos_auth_service.Prelude.{
  ℕ, ◌≡◌, refl, String, Bool, true, false, Option, none, some, find, find-update, find-append,
  arith, or_default, eq_self,
}
use buildos_auth_service.External.{External}
use buildos_auth_service.Database.{World, IfReturns, IfReturns-bind}
use buildos_auth_service.Repositories.Token.{has_hash}
use buildos_auth_service.Services.Token.{
  Presented, TokenPair, check_refresh, issue_tokens, retire_presented, rotate_presented, refresh,
  revoke, hash_refresh_token,
}
use buildos_auth_service.Services.Token.Checks.{Accepted, check_refresh-Accepted}
use buildos_auth_service.Services.Token.Rotation.{Issued, issue_tokens-Issued}

-- The token's stored row is revoked.
abbrev pub is_spent : String → World → Bool
is_spent hash w = elim (find (has_hash hash) w.refresh_tokens) [
  | none ↦ false
  | some t ↦ t.is_revoked
]

module _ (x : External) (token : String) (ip_address user_agent : Option String) (now : Option ℕ)
    (w : World) (spent : is_spent (hash_refresh_token x token) w ≡ true) where
  check_refresh-spent : (at : ℕ) → IfReturns (λ presented w'. ⊥) (check_refresh x token at w)
  unfolding check_refresh
  check_refresh-spent at = ground (arith, spent)

  -- A token whose stored row is revoked is never refreshed.
  pub refresh-spent : IfReturns (λ pair w'. ⊥) (refresh x token ip_address user_agent now w)
  unfolding refresh
  refresh-spent =
      IfReturns-bind (λ presented w'. ⊥) (λ pair w'. ⊥)
        (check_refresh x token (or_default now w.clock) w)
        (λ presented. rotate_presented x presented ip_address user_agent (or_default now w.clock))
        (check_refresh-spent (or_default now w.clock))
        (λ presented w' impossible. absurd impossible)

  -- A token whose stored row is revoked is never revoked again: the revocation does not return.
  pub revoke-spent : IfReturns (λ done w'. ⊥) (revoke x token ip_address user_agent now w)
  unfolding revoke
  revoke-spent = ground (arith, spent)

module _ (x : External) (token : String) (ip_address user_agent : Option String) where
  -- A revocation that returns leaves the token spent.
  pub revoke-is_spent :
      (now : Option ℕ) (w : World)
      → IfReturns
          (λ done w'. is_spent (hash_refresh_token x token) w' ≡ true)
          (revoke x token ip_address user_agent now w)
  unfolding revoke
  revoke-is_spent now w = grind (arith, find-update, eq_self)

  -- The row that was presented is revoked, also where the new row follows it.
  retire_presented-is_spent :
      (c : Presented) (at : ℕ) (pair : TokenPair) (w : World)
      → find (has_hash (hash_refresh_token x token)) w.refresh_tokens ≡ some c.stored
      → IfReturns
          (λ answer w'. is_spent (hash_refresh_token x token) w' ≡ true)
          (retire_presented x c ip_address user_agent at pair w)
  unfolding retire_presented
  retire_presented-is_spent c at pair w e = grind (arith, find-update, eq_self)

  rotate_presented-is_spent :
      (c : Presented) (at : ℕ) (w : World)
      → find (has_hash (hash_refresh_token x token)) w.refresh_tokens ≡ some c.stored
      → IfReturns
          (λ pair w'. is_spent (hash_refresh_token x token) w' ≡ true)
          (rotate_presented x c ip_address user_agent at w)
  unfolding rotate_presented
  rotate_presented-is_spent c at w e =
      IfReturns-bind (Issued x c.user_id c.context_type c.organization_id c.membership_id at w)
        (λ answer w'. is_spent (hash_refresh_token x token) w' ≡ true)
        (issue_tokens x c.user_id c.context_type c.organization_id c.membership_id (some at) w)
        (retire_presented x c ip_address user_agent at)
        (issue_tokens-Issued x c.user_id c.context_type c.organization_id c.membership_id (some at)
          w)
        (λ pair w' issued. retire_presented-is_spent c at pair w' (
          rw (issued.0, find-append (has_hash (hash_refresh_token x token)) w.refresh_tokens, e)
            refl))

  -- A refresh that returns leaves the presented token spent.
  pub refresh-is_spent :
      (now : Option ℕ) (w : World)
      → IfReturns
          (λ pair w'. is_spent (hash_refresh_token x token) w' ≡ true)
          (refresh x token ip_address user_agent now w)
  unfolding refresh
  refresh-is_spent now w =
      IfReturns-bind (Accepted x token (or_default now w.clock) w)
        (λ pair w'. is_spent (hash_refresh_token x token) w' ≡ true)
        (check_refresh x token (or_default now w.clock) w)
        (λ presented. rotate_presented x presented ip_address user_agent (or_default now w.clock))
        (check_refresh-Accepted x token (or_default now w.clock) w)
        (λ presented w' accepted.
          rotate_presented-is_spent presented (or_default now w.clock) w'
            (rw (accepted.0) accepted.1))
