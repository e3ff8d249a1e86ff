-- ===== src/Services/Password/Reset.antt =====
-- Password resets: when one is completed, what it leaves, and its token presented again.
use mathlib.Core.Option
use buildos_auth_service.Prelude.{
  ℕ, ◌≡◌, refl, String, Bool, true, false, Option, none, some, List, [], find, find-update,
  find-passes, updated, update, or_default, arith, eq_self, eq_iff, IsDistinct, find-IsDistinct,
  find-weaker, ap, ◌∙◌, update-IsDistinct, Option-cases, inl, inr, select, is_found,
}
use buildos_auth_service.Core.Context
use buildos_auth_service.Core.Exceptions.{password_reset}
use buildos_auth_service.Models.{PasswordReset}
use buildos_auth_service.External.{External}
use buildos_auth_service.Database.{World, err, IfReturns, IfReturns-map, is_ok}
use buildos_auth_service.Repositories.Credential.{belongs_to}
use buildos_auth_service.Repositories.PasswordResets.{has_hash, has_id, is_usable}
use buildos_auth_service.Repositories.Token.{in_scope}
use buildos_auth_service.Repositories.Token.Scope.{select-in_scope-revoked}
use buildos_auth_service.Services.Password.{confirm_reset, hash_reset_token}
use buildos_auth_service.Services.Password.Change.{with_password, find-with_password}

-- What `confirm_reset` needs of the reset row that it finds.
abbrev pub resets : Option PasswordReset → World → Bool
resets none w = false
resets (some r) w = is_found (find (belongs_to r.user_id) w.credentials)

module _ (x : External) (reset_token new_password : String) (ip_address user_agent : Option String)
    (now : Option ℕ) (w : World) where
  -- A reset is completed exactly if an unused and unexpired row has the token's hash and its user has
  -- a credential.
  pub confirm_reset-resets :
      is_ok (confirm_reset x reset_token new_password ip_address user_agent now w).0
      ≡ resets
          (find
            (is_usable (hash_reset_token x reset_token) (or_default now w.clock))
            w.password_resets)
          w
  unfolding confirm_reset
  confirm_reset-resets = ground arith

  -- What a completed reset leaves for the row `r` that it found: the new password's hash in the
  -- credential of the row's user, no active personal token of that user, and the row marked as used.
  pub confirm_reset-with_password :
      (r : PasswordReset)
      → find (is_usable (hash_reset_token x reset_token) (or_default now w.clock)) w.password_resets
        ≡ some r
      → IfReturns
          (λ done w'.
            (done.user_id ≡ r.user_id)
            × (find (belongs_to r.user_id) w'.credentials
                ≡ Option.map
                    (with_password x new_password w.draws (or_default now w.clock))
                    (find (belongs_to r.user_id) w.credentials))
            × (select (in_scope r.user_id (some Context.personal) none none) w'.refresh_tokens ≡ [])
            × (w'.password_resets
                ≡ update
                    (has_id r.id)
                    (λ row. record row { is_used = true; used_at = some (or_default now w.clock) })
                    w.password_resets))
          (confirm_reset x reset_token new_password ip_address user_agent now w)
  unfolding confirm_reset
  confirm_reset-with_password r e =
      elim (Option-cases (find (belongs_to r.user_id) w.credentials)) [
        | inl missing ↦ ground (arith, e, missing)
        | inr (c, found) ↦ ground (
          arith,
          e,
          found,
          find-with_password x new_password w.draws (or_default now w.clock) r.user_id c
              w.credentials found,
          select-in_scope-revoked r.user_id (some Context.personal) none none
              (or_default now w.clock) w.refresh_tokens,
        )
      ]

-- Under a unique hash, a row that is used hides every usable row with its hash.
pub unusable :
    (hash : String) (at : ℕ) (rows : List PasswordReset) (r : PasswordReset)
    → IsDistinct (λ row. row.token_hash) rows
    → find (has_hash hash) rows ≡ some r
    → r.is_used ≡ true
    → find (is_usable hash at) rows ≡ none
unusable hash at rows r distinct e used = elim (Option-cases (find (is_usable hash at) rows)) [
  | inl gone ↦ gone
  | inr (s, found) ↦ ground (
    arith,
    eq_iff r.token_hash hash,
    eq_iff s.token_hash hash,
    find-passes (has_hash hash) rows {x = r} e,
    find-passes (is_usable hash at) rows {x = s} found,
    find-IsDistinct (λ row. row.token_hash) (has_hash hash) (is_usable hash at) rows r s distinct e
        found,
  )
]

-- Under a unique hash, the usable row is the one that the hash finds.
pub find-usable :
    (hash : String) (at : ℕ) (rows : List PasswordReset) (r : PasswordReset)
    → IsDistinct (λ row. row.token_hash) rows
    → find (is_usable hash at) rows ≡ some r
    → find (has_hash hash) rows ≡ some r
find-usable hash at rows r distinct e = elim (Option-cases (find (has_hash hash) rows)) [
  | inl missing ↦
      absurd
        (find-weaker (is_usable hash at) (has_hash hash) rows r (λ row h. ground arith) e missing)
  | inr (s, found) ↦ ground (
    arith,
    eq_iff r.token_hash hash,
    eq_iff s.token_hash hash,
    find-passes (has_hash hash) rows {x = s} found,
    find-passes (is_usable hash at) rows {x = r} e,
    find-IsDistinct (λ row. row.token_hash) (has_hash hash) (is_usable hash at) rows s r distinct
        found e,
  )
]

abbrev used : ℕ → PasswordReset → PasswordReset
used at row = record row { is_used = true; used_at = some at }

-- No row is usable under the hash of a row that has been marked as used.
used_up :
    (hash : String) (at later : ℕ) (rows : List PasswordReset) (r : PasswordReset)
    → IsDistinct (λ row. row.token_hash) rows
    → find (is_usable hash at) rows ≡ some r
    → find (is_usable hash later) (update (has_id r.id) (used at) rows) ≡ none
used_up hash at later rows r distinct e =
    unusable hash later (update (has_id r.id) (used at) rows) (used at r)
      (update-IsDistinct (λ row. row.token_hash) (has_id r.id) (used at) rows (λ row. refl)
        distinct)
      (find-update (has_hash hash) (has_id r.id) (used at) rows (λ row. refl)
        ∙ ap (Option.map (updated (has_id r.id) (used at))) (find-usable hash at rows r distinct e)
        ∙ rw (eq_self r.id) refl)
      refl

pub confirm_reset-unusable :
    (x : External) (reset_token new_password : String) (ip_address user_agent : Option String)
    (now : Option ℕ) (w : World)
    → find (is_usable (hash_reset_token x reset_token) (or_default now w.clock)) w.password_resets
      ≡ none
    → (confirm_reset x reset_token new_password ip_address user_agent now w).0
      ≡ err (password_reset "Invalid or expired reset token.")
unfolding confirm_reset
confirm_reset-unusable x reset_token new_password ip_address user_agent now w e = ground (arith, e)

module _ (x : External) (reset_token : String) (now : Option ℕ) (w : World) (r : PasswordReset)
    (distinct : IsDistinct (λ row. row.token_hash) w.password_resets)
    (e : find
        (is_usable (hash_reset_token x reset_token) (or_default now w.clock))
        w.password_resets
      ≡ some r) where
  -- A reset token works once: where the stored hashes are distinct, after a completed reset every
  -- other one with the same token is refused, whatever the password and the time.
  pub confirm_reset-once :
      (new_password again : String) (ip_address user_agent ip_address' user_agent' : Option String)
      (later : Option ℕ)
      → IfReturns
          (λ done w'.
            (confirm_reset x reset_token again ip_address' user_agent' later w').0
            ≡ err (password_reset "Invalid or expired reset token."))
          (confirm_reset x reset_token new_password ip_address user_agent now w)
  confirm_reset-once new_password again ip_address user_agent ip_address' user_agent' later =
      IfReturns-map _ _ (confirm_reset x reset_token new_password ip_address user_agent now w)
        (λ done w' h. confirm_reset-unusable x reset_token again ip_address' user_agent' later w' (
          ap (find (is_usable (hash_reset_token x reset_token) (or_default later w'.clock))) h.3
          ∙ used_up (hash_reset_token x reset_token) (or_default now w.clock)
              (or_default later w'.clock) w.password_resets r distinct e))
        (confirm_reset-with_password x reset_token new_password ip_address user_agent now w r e)
