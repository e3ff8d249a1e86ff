-- ===== src/Services/Token/Race.antt =====
-- Two requests that refresh the same token at the same time: both check it before either rotates it.
-- Each session writes its own changes to the row, by its primary key.
use buildos_auth_service.Prelude.{
  ℕ, ◌+◌, ◌≡◌, ◌≢◌, refl, String, false, Option, none, some, find, arith, find-append, ◌==◌, str_eq,
  str_eq_self, [], ◌∷◌, sym, ◌∙◌, ap,
}
use buildos_auth_service.Models.{RefreshToken}
use buildos_auth_service.External.{External}
use buildos_auth_service.Database.{
  World, Action, Returns, Returns-bind, Returns-map, Returns-after, ok, ◌>>=◌, return,
}
use buildos_auth_service.Repositories.Token.{has_hash}
use buildos_auth_service.Services.Token.{
  Presented, TokenPair, check_refresh, rotate_presented, retire_presented, issue_tokens,
  hash_refresh_token,
}
use buildos_auth_service.Services.Token.Table.{rotated_table, find-kept, find-added, find-unseen}
use buildos_auth_service.Services.Token.Rotation.{new_row, next_refresh_token}

abbrev next_row : External → Presented → ℕ → World → RefreshToken
next_row x c at w =
    new_row x c.user_id c.context_type c.organization_id c.membership_id at w.clock
      (next_refresh_token x c at (w.draws + 1)) (w.draws + 1 + 1)

-- What a rotation does to the table and to the count of draws.
abbrev Flushed : External → Presented → ℕ → World → TokenPair → World → Type 0
Flushed x c at w pair w' =
    (w'.refresh_tokens ≡ rotated_table c.stored at (next_row x c at w) w.refresh_tokens)
    × (pair.refresh_token ≡ next_refresh_token x c at (w.draws + 1))
    × (w'.clock ≡ w.clock)
    × (w'.draws ≡ w.draws + 4)

module _ (x : External) (c : Presented) (ip_address user_agent : Option String) (at : ℕ) (w : World)
    (unseen : find
        (has_hash (x.sha256_hex (next_refresh_token x c at (w.draws + 1))))
        w.refresh_tokens
      ≡ none) where
  rotate_presented-Flushed :
      Returns (Flushed x c at w) (rotate_presented x c ip_address user_agent at w)
  unfolding rotate_presented issue_tokens retire_presented rotated_table hash_refresh_token find
  rotate_presented-Flushed = ground (
    arith,
    unseen,
    find-append (has_hash (x.sha256_hex (next_refresh_token x c at (w.draws + 1)))) w.refresh_tokens
        (next_row x c at w ∷ []),
    str_eq_self (x.sha256_hex (next_refresh_token x c at (w.draws + 1))),
  )

abbrev rotate_both :
    External
    → (ip_address user_agent : Option String) → ℕ
    → Presented
    → Presented
    → Action (TokenPair × TokenPair)
rotate_both x ip_address user_agent at presented presented' = do
  pair ← rotate_presented x presented ip_address user_agent at
  pair' ← rotate_presented x presented' ip_address user_agent at
  return (pair, pair')

-- Two sessions, the one after the other in each step: both check, then both rotate.
abbrev pub refresh_both :
    External → String → (ip_address user_agent : Option String) → ℕ → Action (TokenPair × TokenPair)
refresh_both x token ip_address user_agent at = do
  presented ← check_refresh x token at
  presented' ← check_refresh x token at
  rotate_both x ip_address user_agent at presented presented'

-- The token has a row that is not revoked.
abbrev pub IsActive : External → String → World → Type 0
IsActive x token w =
    (t : RefreshToken) × (find (has_hash (hash_refresh_token x token)) w.refresh_tokens ≡ some t)
    × (t.is_revoked ≡ false)

-- The two pairs have different refresh tokens, and both are active.
abbrev pub BothActive : External → TokenPair → TokenPair → World → Type 0
BothActive x pair pair' w =
    (pair.refresh_token ≢ pair'.refresh_token)
    × IsActive x pair.refresh_token w
    × IsActive x pair'.refresh_token w

-- What is drawn for the two new tokens is new: their hashes and the ids of their rows.
pub record IsFresh (x : External) (c : Presented) (at : ℕ) (w : World) : Type 0 where
  pub unseen :
      find (has_hash (x.sha256_hex (next_refresh_token x c at (w.draws + 1)))) w.refresh_tokens
      ≡ none
  pub unseen' :
      find (has_hash (x.sha256_hex (next_refresh_token x c at (w.draws + 4 + 1)))) w.refresh_tokens
      ≡ none
  pub apart :
      str_eq
        (x.sha256_hex (next_refresh_token x c at (w.draws + 1)))
        (x.sha256_hex (next_refresh_token x c at (w.draws + 4 + 1)))
      ≡ false
  pub id : (x.uuid4 (w.draws + 1 + 1) == c.stored.id) ≡ false
  pub id' : (x.uuid4 (w.draws + 4 + 1 + 1) == c.stored.id) ≡ false

module _ (x : External) (c : Presented) (ip_address user_agent : Option String) (at : ℕ) (w : World)
    (fresh : IsFresh x c at w) where
  -- The table after the first rotation, as the second one finds it.
  first_found :
      (w' : World)
      → w'.refresh_tokens ≡ rotated_table c.stored at (next_row x c at w) w.refresh_tokens
      → find (has_hash (next_row x c at w).token_hash) w'.refresh_tokens ≡ some (next_row x c at w)
  first_found w' table =
      rw table (find-added c.stored at (next_row x c at w) w.refresh_tokens fresh.unseen fresh.id)

  second_unseen :
      (w' : World)
      → w'.refresh_tokens ≡ rotated_table c.stored at (next_row x c at w) w.refresh_tokens
      → w'.draws ≡ w.draws + 4
      → find (has_hash (x.sha256_hex (next_refresh_token x c at (w'.draws + 1)))) w'.refresh_tokens
        ≡ none
  second_unseen w' table draws =
      rw (draws, table)
        (find-unseen c.stored at (next_row x c at w) w.refresh_tokens
          (x.sha256_hex (next_refresh_token x c at (w.draws + 4 + 1))) fresh.unseen' fresh.apart)

  tokens_differ :
      (w' : World)
      → w'.draws ≡ w.draws + 4
      → next_refresh_token x c at (w.draws + 1) ≢ next_refresh_token x c at (w'.draws + 1)
  tokens_differ w' draws same = absurd (
      ground (
        arith,
        fresh.apart,
        str_eq_self (x.sha256_hex (next_refresh_token x c at (w.draws + 1))),
        same ∙ ap (λ d. next_refresh_token x c at (d + 1)) draws,
      ))

  second_rotation :
      (pair : TokenPair) (w' : World)
      → Flushed x c at w pair w'
      → Returns
          (λ pair' w''. BothActive x pair pair' w'')
          (rotate_presented x c ip_address user_agent at w')
  unfolding hash_refresh_token
  second_rotation pair w' (table, token, clock, draws) =
      Returns-map (Flushed x c at w') (λ pair' w''. BothActive x pair pair' w'')
        (rotate_presented x c ip_address user_agent at w')
        (λ pair' w'' after. (
          (λ same. tokens_differ w' draws (sym token ∙ same ∙ after.1)),
          (
            next_row x c at w,
            rw (token, after.0)
                (find-kept c.stored at (next_row x c at w') w'.refresh_tokens
                  (next_row x c at w).token_hash (next_row x c at w) (first_found w' table)
                  fresh.id),
            refl,
          ),
          (
            next_row x c at w',
            rw (after.1, after.0)
                (find-added c.stored at (next_row x c at w') w'.refresh_tokens
                  (second_unseen w' table draws) (rw draws fresh.id')),
            refl,
          ),
        ))
        (rotate_presented-Flushed x c ip_address user_agent at w' (second_unseen w' table draws))

rotate_both-BothActive :
    (x : External) (c : Presented) (ip_address user_agent : Option String) (at : ℕ) (w : World)
    → IsFresh x c at w
    → Returns
        (λ pairs w'. BothActive x pairs.0 pairs.1 w')
        (rotate_both x ip_address user_agent at c c w)
rotate_both-BothActive x c ip_address user_agent at w fresh =
    Returns-bind (Flushed x c at w) (λ pairs w'. BothActive x pairs.0 pairs.1 w')
      (rotate_presented x c ip_address user_agent at w)
      (λ pair. rotate_presented x c ip_address user_agent at >>= λ pair'. return (pair, pair'))
      (rotate_presented-Flushed x c ip_address user_agent at w fresh.unseen)
      (λ pair w' first.
        Returns-bind (λ pair' w''. BothActive x pair pair' w'')
          (λ pairs w''. BothActive x pairs.0 pairs.1 w'')
          (rotate_presented x c ip_address user_agent at w') (λ pair'. return (pair, pair'))
          (second_rotation x c ip_address user_agent at w fresh pair w' first)
          (λ pair' w'' both. both))

-- Two sessions that present the same refresh token and both check it before either rotates it both
-- return, if the ids and hashes drawn for the new tokens are new: the one token has become two
-- active ones.
pub refresh_both-BothActive :
    (x : External) (token : String) (ip_address user_agent : Option String) (at : ℕ) (c : Presented)
    (w : World)
    → check_refresh x token at w ≡ (ok c, w)
    → IsFresh x c at w
    → Returns
        (λ pairs w'. BothActive x pairs.0 pairs.1 w')
        (refresh_both x token ip_address user_agent at w)
refresh_both-BothActive x token ip_address user_agent at c w checked fresh =
    let Q : TokenPair × TokenPair → World → Type 0 = λ pairs v. BothActive x pairs.0 pairs.1 v in
    Returns-after Q (check_refresh x token at w)
      (λ presented. check_refresh x token at >>= λ presented'.
        rotate_both x ip_address user_agent at presented presented')
      c w checked
      (Returns-after Q (check_refresh x token at w)
        (λ presented'. rotate_both x ip_address user_agent at c presented') c w checked
        (rotate_both-BothActive x c ip_address user_agent at w fresh))
