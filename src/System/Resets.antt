-- ===== src/System/Resets.antt =====
-- A password reset token, over a sequence of requests.
use mathlib.Core.Option
use buildos_auth_service.Prelude.{
  ℕ, ◌≡◌, refl, ap, ◌∙◌, String, true, Option, some, List, find, find-update, update, updated,
  or_default, arith, eq_self, str_eq_self, IsDistinct, distinct-IsDistinct, Option-cases, inl, inr,
}
use buildos_auth_service.Core.Exceptions.{password_reset}
use buildos_auth_service.Models.{PasswordReset}
use buildos_auth_service.External.{External}
use buildos_auth_service.Database.{
  World, err, IfReturns, IfReturns-map, IfReturns-err, IfReturns-and_world,
}
use buildos_auth_service.Repositories.PasswordResets.{has_hash, has_id, is_usable}
use buildos_auth_service.Services.UserDirectory.{UserDirectory}
use buildos_auth_service.Services.Password.{confirm_reset, hash_reset_token}
use buildos_auth_service.Services.Password.Reset.{
  find-usable, unusable, confirm_reset-unusable, confirm_reset-with_password,
}
use buildos_auth_service.Api.Auth.{CreateSession}
use buildos_auth_service.System.{CreateUser, Request, handle_all}
use buildos_auth_service.System.Kept.Requests.{handle_all_keeps}
use buildos_auth_service.System.Uniqueness.{unique, unique-IsKept}
use buildos_auth_service.System.Used.{is_used, is_used-IsKept}

unique-IsDistinct : (w : World) → unique w ≡ true → IsDistinct (λ r. r.token_hash) w.password_resets
unique-IsDistinct w h =
    distinct-IsDistinct has_hash (λ r. r.token_hash) w.password_resets
      (λ r. str_eq_self r.token_hash) (ground (arith, h))

-- Under unique hashes, a used row keeps its token from being accepted.
is_used-refused :
    (x : External) (reset_token new_password : String) (ip_address user_agent : Option String)
    (now : Option ℕ) (w : World)
    → unique w ≡ true
    → is_used (hash_reset_token x reset_token) w ≡ true
    → (confirm_reset x reset_token new_password ip_address user_agent now w).0
      ≡ err (password_reset "Invalid or expired reset token.")
is_used-refused x reset_token new_password ip_address user_agent now w keys spent =
    confirm_reset-unusable x reset_token new_password ip_address user_agent now w
      (elim (Option-cases (find (has_hash (hash_reset_token x reset_token)) w.password_resets)) [
        | inl missing ↦ absurd (ground (arith, spent, missing))
        | inr (r, found) ↦
            unusable (hash_reset_token x reset_token) (or_default now w.clock) w.password_resets r
              (unique-IsDistinct w keys) found (ground (arith, spent, found))
      ])

abbrev used : ℕ → PasswordReset → PasswordReset
used at row = record row { is_used = true; used_at = some at }

-- The row that was marked as used is the one that the hash finds.
marked-is_used :
    (hash : String) (at : ℕ) (w w' : World) (r : PasswordReset)
    → unique w ≡ true
    → find (is_usable hash at) w.password_resets ≡ some r
    → w'.password_resets ≡ update (has_id r.id) (used at) w.password_resets
    → is_used hash w' ≡ true
marked-is_used hash at w w' r keys e written =
    let found : find (has_hash hash) w'.password_resets ≡ some (used at r) =
      ap (find (has_hash hash)) written
      ∙ find-update (has_hash hash) (has_id r.id) (used at) w.password_resets (λ row. refl)
      ∙ ap (Option.map (updated (has_id r.id) (used at)))
          (find-usable hash at w.password_resets r (unique-IsDistinct w keys) e)
      ∙ rw (eq_self r.id) refl in
    ground (arith, found)

module _ (x : External) (users : UserDirectory) (create_session : CreateSession)
    (create_user : CreateUser) where
  -- A password reset token works once: where the unique columns have no value twice, after a completed
  -- reset no sequence of requests brings the service to a state in which the same token resets a
  -- password again, whoever presents it and whenever.
  pub confirm_reset-once_ever :
      (requests : List Request) (reset_token new_password again : String)
      (ip_address user_agent ip_address' user_agent' : Option String) (now later : Option ℕ)
      (w : World)
      → unique w ≡ true
      → IfReturns
          (λ done w'.
            (confirm_reset x reset_token again ip_address' user_agent' later
              (handle_all x users create_session create_user requests w')).0
            ≡ err (password_reset "Invalid or expired reset token."))
          (confirm_reset x reset_token new_password ip_address user_agent now w)
  confirm_reset-once_ever requests reset_token new_password again ip_address user_agent ip_address'
        user_agent' now later w keys =
      let hash = hash_reset_token x reset_token in
      let at = or_default now w.clock in
      let first = confirm_reset x reset_token new_password ip_address user_agent now w in
      elim (Option-cases (find (is_usable hash at) w.password_resets)) [
        | inl missing ↦
            IfReturns-err _ first (password_reset "Invalid or expired reset token.") (
              confirm_reset-unusable x reset_token new_password ip_address user_agent now w missing)
        | inr (r, e) ↦
            IfReturns-map _ _ first
              (λ done w' h.
                is_used-refused x reset_token again ip_address' user_agent' later
                  (handle_all x users create_session create_user requests w')
                  (handle_all_keeps x users create_session create_user (λ v. unique v ≡ true)
                    (unique-IsKept x) requests w' h.1)
                  (handle_all_keeps x users create_session create_user
                    (λ v. is_used (hash_reset_token x reset_token) v ≡ true) (is_used-IsKept x hash)
                    requests w' (marked-is_used hash at w w' r keys e h.0.3)))
              (IfReturns-and_world _ (λ v. unique v ≡ true) first
                (confirm_reset-with_password x reset_token new_password ip_address user_agent now w
                  r e)
                ((unique-IsKept x).confirmed reset_token new_password ip_address user_agent now w
                  keys))
      ]
