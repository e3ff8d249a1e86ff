-- ===== src/Services/Token/Table.antt =====
-- The table of refresh tokens after a rotation.
use mathlib.Core.Option
use buildos_auth_service.Prelude.{
  ℕ, ◌≡◌, ◌≢◌, refl, String, true, false, none, some, find, arith, find-append, find-update, str_eq,
  str_eq_self, ◌==◌, update, List, [], ◌∷◌, ◌++◌, if◌then◌else◌,
}
use buildos_auth_service.Models.{RefreshToken}
use buildos_auth_service.Repositories.Token.{has_hash, has_id}

-- The row of a token that was rotated at `at` in favour of the row `id`.
abbrev pub rotated_row : RefreshToken → ℕ → ℕ → RefreshToken
rotated_row t at id = record t {
  is_revoked = true;
  revoked_at = some at;
  replaced_by_token_id = some id;
  last_used_at = some at;
}

-- The two changes that a rotation flushes, on the table with the new row.
unfoldable pub rotated_table :
    RefreshToken → ℕ → RefreshToken → List RefreshToken → List RefreshToken
rotated_table stored at new tokens =
    update (has_id stored.id) (λ t. record t { last_used_at = some at })
      (update (has_id stored.id)
        (λ t. record t {
          is_revoked = true;
          revoked_at = some at;
          replaced_by_token_id = some new.id;
        })
        (tokens ++ new ∷ []))

-- A row after both changes.
abbrev pub rotated_if : RefreshToken → ℕ → ℕ → RefreshToken → RefreshToken
rotated_if stored at id t = if t.id == stored.id then rotated_row t at id else t

module _ (stored : RefreshToken) (at : ℕ) (new : RefreshToken) where
  pub find-rotated_table :
      (hash : String) (tokens : List RefreshToken)
      → find (has_hash hash) (rotated_table stored at new tokens)
        ≡ Option.map (rotated_if stored at new.id) (find (has_hash hash) (tokens ++ new ∷ []))
  unfolding rotated_table
  find-rotated_table hash tokens =
      rw
        (
          find-update (has_hash hash) (has_id stored.id) (λ t. record t { last_used_at = some at })
              (update (has_id stored.id)
                (λ t. record t {
                  is_revoked = true;
                  revoked_at = some at;
                  replaced_by_token_id = some new.id;
                })
                (tokens ++ new ∷ []))
              (λ t. refl),
          find-update (has_hash hash) (has_id stored.id)
              (λ t. record t {
                is_revoked = true;
                revoked_at = some at;
                replaced_by_token_id = some new.id;
              })
              (tokens ++ new ∷ []) (λ t. refl),
        )
        (ground arith)

  pub find-rotated_table_old :
      (hash : String) (tokens : List RefreshToken)
      → find (has_hash hash) tokens ≡ some stored
      → find (has_hash hash) (rotated_table stored at new tokens)
        ≡ some (rotated_row stored at new.id)
  find-rotated_table_old hash tokens e =
      rw (find-rotated_table hash tokens, find-append (has_hash hash) tokens (new ∷ []), e)
        (ground arith)

  pub find-rotated_table_new :
      (tokens : List RefreshToken)
      → find (has_hash new.token_hash) tokens ≡ none
      → new.id ≢ stored.id
      → find (has_hash new.token_hash) (rotated_table stored at new tokens) ≡ some new
  unfolding find
  find-rotated_table_new tokens e ne =
      rw
        (
          find-rotated_table new.token_hash tokens,
          find-append (has_hash new.token_hash) tokens (new ∷ []),
          e,
          str_eq_self new.token_hash,
        )
        (ground arith)

module _ (stored : RefreshToken) (at : ℕ) (new : RefreshToken) (tokens : List RefreshToken) where
  -- Another row stays.
  pub find-kept :
      (hash : String) (r : RefreshToken)
      → find (has_hash hash) tokens ≡ some r
      → (r.id == stored.id) ≡ false
      → find (has_hash hash) (rotated_table stored at new tokens) ≡ some r
  find-kept hash r e other =
      rw
        (
          find-rotated_table stored at new hash tokens,
          find-append (has_hash hash) tokens (new ∷ []),
          e,
        )
        (ground (arith, other))

  pub find-added :
      find (has_hash new.token_hash) tokens ≡ none
      → (new.id == stored.id) ≡ false
      → find (has_hash new.token_hash) (rotated_table stored at new tokens) ≡ some new
  unfolding find
  find-added e other =
      rw
        (
          find-rotated_table stored at new new.token_hash tokens,
          find-append (has_hash new.token_hash) tokens (new ∷ []),
          e,
          str_eq_self new.token_hash,
        )
        (ground (arith, other))

  pub find-unseen :
      (hash : String)
      → find (has_hash hash) tokens ≡ none
      → str_eq new.token_hash hash ≡ false
      → find (has_hash hash) (rotated_table stored at new tokens) ≡ none
  unfolding find
  find-unseen hash e other =
      rw
        (
          find-rotated_table stored at new hash tokens,
          find-append (has_hash hash) tokens (new ∷ []),
          e,
          other,
        )
        refl
