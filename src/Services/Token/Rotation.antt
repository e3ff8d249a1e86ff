-- ===== src/Services/Token/Rotation.antt =====
-- Rotation: what `refresh` does to the stored tokens.
use buildos_auth_service.Prelude.{
  ℕ, ◌+◌, ◌≡◌, ◌≢◌, refl, String, false, Option, none, some, find, arith, find-append, str_eq_self,
  subst, sym, or_default, [], ◌∷◌, ◌++◌,
}
use buildos_auth_service.Core.Config.{days}
use buildos_auth_service.Models.{RefreshToken}
use buildos_auth_service.External.{External}
use buildos_auth_service.Database.{World, IfReturns, Returns, Returns-bind, ok}
use buildos_auth_service.Repositories.Token.{has_hash}
use buildos_auth_service.Core.TokenType
use buildos_auth_service.Security.TokenSigning.{token_payload}
use buildos_auth_service.Services.Token.{
  Presented, TokenPair, check_refresh, rotate_presented, retire_presented, issue_tokens, refresh,
  hash_refresh_token,
}
use buildos_auth_service.Services.Token.Table.{
  rotated_row, rotated_table, find-rotated_table_old, find-rotated_table_new,
}
use buildos_auth_service.Services.Token.Checks.{Accepted, check_refresh-Accepted}

-- The row of a token that was issued at `at` with the id of draw number `d`.
abbrev pub new_row :
    External
    → (user_id : ℕ) (context_type : String) (organization_id membership_id : Option ℕ)
    → (at created : ℕ) (token : String) (d : ℕ) → RefreshToken
new_row x user_id context_type organization_id membership_id at created token d = record {
  id = x.uuid4 d;
  user_id = user_id;
  context_type = context_type;
  organization_id = organization_id;
  membership_id = membership_id;
  token_hash = x.sha256_hex token;
  expires_at = at + days x.settings.refresh_token_expire_days;
  revoked_at = none;
  is_revoked = false;
  created_at = created;
  last_used_at = none;
  replaced_by_token_id = none;
}

-- The new pair is stored under its hash, active and with the scope of the presented token, and the
-- presented token's row is revoked and points at it.
abbrev pub Rotated : External → String → ℕ → World → Presented → TokenPair → World → Type 0
Rotated x token at w c pair w' =
    (find (has_hash (hash_refresh_token x token)) w'.refresh_tokens
      ≡ some (rotated_row c.stored at (x.uuid4 (w.draws + 1 + 1))))
    × (find (has_hash (hash_refresh_token x pair.refresh_token)) w'.refresh_tokens
        ≡ some (
            new_row x c.user_id c.context_type c.organization_id c.membership_id at w.clock
              pair.refresh_token (w.draws + 1 + 1)))
    × (w'.clock ≡ w.clock)

-- `issue_tokens` stores one row, under a hash that no row had.
abbrev pub Issued :
    External
    → ℕ
    → String
    → (organization_id membership_id : Option ℕ) → ℕ
    → World
    → TokenPair
    → World
    → Type 0
Issued x user_id context_type organization_id membership_id at w pair w' =
    (w' ≡ record w {
      refresh_tokens =
          w.refresh_tokens
          ++ new_row x user_id context_type organization_id membership_id at w.clock
              pair.refresh_token (w.draws + 1 + 1)
            ∷ [];
      draws = w.draws + 1 + 1 + 1;
    })
    × (find (has_hash (x.sha256_hex pair.refresh_token)) w.refresh_tokens ≡ none)

module _ (x : External) where
  pub issue_tokens-Issued :
      (user_id : ℕ) (context_type : String) (organization_id membership_id now : Option ℕ)
      (w : World)
      → IfReturns
          (Issued x user_id context_type organization_id membership_id (or_default now w.clock) w)
          (issue_tokens x user_id context_type organization_id membership_id now w)
  unfolding issue_tokens
  issue_tokens-Issued user_id context_type organization_id membership_id now w = ground arith

  -- The refresh token of the next pair, which is signed with the draw number `d`.
  abbrev pub next_refresh_token : Presented → ℕ → ℕ → String
  next_refresh_token c at d =
      x.jwt_encode
        (token_payload x TokenType.refresh c.user_id c.context_type c.organization_id
          c.membership_id at (at + days x.settings.refresh_token_expire_days) d)
        x.settings.jwt_secret_key x.settings.jwt_algorithm

  issue_tokens-Returns :
      (c : Presented) (at : ℕ) (w : World)
      → find (has_hash (x.sha256_hex (next_refresh_token c at (w.draws + 1)))) w.refresh_tokens
        ≡ none
      → Returns
          (Issued x c.user_id c.context_type c.organization_id c.membership_id at w)
          (issue_tokens x c.user_id c.context_type c.organization_id c.membership_id (some at) w)
  unfolding issue_tokens
  issue_tokens-Returns c at w unseen = ground arith

module _ (x : External) (token : String) (ip_address user_agent : Option String) (at : ℕ) where
  retire_presented-Rotated :
      (c : Presented) (w w' : World) (pair : TokenPair)
      → find (has_hash (hash_refresh_token x token)) w.refresh_tokens ≡ some c.stored
      → x.uuid4 (w.draws + 1 + 1) ≢ c.stored.id
      → Issued x c.user_id c.context_type c.organization_id c.membership_id at w pair w'
      → Returns (Rotated x token at w c) (retire_presented x c ip_address user_agent at pair w')
  unfolding retire_presented hash_refresh_token rotated_table find
  retire_presented-Rotated c w w' pair e fresh (same, unseen) =
      let new =
        new_row x c.user_id c.context_type c.organization_id c.membership_id at w.clock
          pair.refresh_token (w.draws + 1 + 1) in
      let stored_new : find (has_hash new.token_hash) (w.refresh_tokens ++ new ∷ []) ≡ some new =
        rw
          (
            find-append (has_hash new.token_hash) w.refresh_tokens (new ∷ []),
            unseen,
            str_eq_self new.token_hash,
          )
          refl in
      rw same (
        ground (
          arith,
          stored_new,
          find-rotated_table_old c.stored at new (x.sha256_hex token) w.refresh_tokens e,
          find-rotated_table_new c.stored at new w.refresh_tokens unseen fresh,
        ))

  rotate_presented-Rotated :
      (c : Presented) (w : World)
      → find (has_hash (hash_refresh_token x token)) w.refresh_tokens ≡ some c.stored
      → x.uuid4 (w.draws + 1 + 1) ≢ c.stored.id
      → find (has_hash (x.sha256_hex (next_refresh_token x c at (w.draws + 1)))) w.refresh_tokens
        ≡ none
      → Returns (Rotated x token at w c) (rotate_presented x c ip_address user_agent at w)
  unfolding rotate_presented
  rotate_presented-Rotated c w e fresh unseen =
      Returns-bind (Issued x c.user_id c.context_type c.organization_id c.membership_id at w)
        (Rotated x token at w c)
        (issue_tokens x c.user_id c.context_type c.organization_id c.membership_id (some at) w)
        (retire_presented x c ip_address user_agent at) (issue_tokens-Returns x c at w unseen)
        (λ pair w' issued. retire_presented-Rotated c w w' pair e fresh issued)

-- A presented token whose checks pass is rotated: the new pair is stored active with the presented
-- token's scope, and the presented token's row is revoked and points at the new row. It needs that
-- the drawn id is not the presented row's, and that the new token's hash is not yet stored.
pub refresh-Rotated :
    (x : External) (token : String) (ip_address user_agent : Option String) (now : Option ℕ)
    (c : Presented) (w : World)
    → check_refresh x token (or_default now w.clock) w ≡ (ok c, w)
    → x.uuid4 (w.draws + 1 + 1) ≢ c.stored.id
    → find
        (has_hash (x.sha256_hex (next_refresh_token x c (or_default now w.clock) (w.draws + 1))))
        w.refresh_tokens
      ≡ none
    → Returns
        (Rotated x token (or_default now w.clock) w c)
        (refresh x token ip_address user_agent now w)
unfolding refresh
refresh-Rotated x token ip_address user_agent now c w checked fresh unseen =
    let at = or_default now w.clock in
    let accepted : Accepted x token at w c w =
      subst (IfReturns (Accepted x token at w)) checked (check_refresh-Accepted x token at w) in
    Returns-bind
      (λ presented w'.
        Returns (Rotated x token at w c) (rotate_presented x presented ip_address user_agent at w'))
      (Rotated x token at w c) (check_refresh x token at w)
      (λ presented. rotate_presented x presented ip_address user_agent at)
      (subst
        (Returns (λ presented w'.
          Returns (Rotated x token at w c)
            (rotate_presented x presented ip_address user_agent at w')))
        (sym checked)
        (rotate_presented-Rotated x token ip_address user_agent at c w accepted.1 fresh unseen))
      (λ presented w' rotated. rotated)
