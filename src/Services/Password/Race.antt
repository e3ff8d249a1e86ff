-- ===== src/Services/Password/Race.antt =====
-- Two requests that complete the same password reset at the same time: both check the token before
-- either writes. Each session writes its own changes to the rows, by their primary keys.
use mathlib.Core.Option
use buildos_auth_service.Prelude.{
  ℕ, ◌+◌, ◌≡◌, refl, String, true, Option, some, find, find-update, update, eq_self, arith,
}
use buildos_auth_service.Models.{PasswordReset, AuthCredential}
use buildos_auth_service.External.{External}
use buildos_auth_service.Database.{
  World, Action, Returns, Returns-bind, Returns-after, ok, ◌>>=◌, return,
}
use buildos_auth_service.Repositories.Credential
use buildos_auth_service.Repositories.Credential.{belongs_to, has_id}
use buildos_auth_service.Repositories.PasswordResets
use buildos_auth_service.Repositories.PasswordResets.{is_usable}
use buildos_auth_service.Repositories.Token
use buildos_auth_service.Repositories.Event as Events
use buildos_auth_service.Security.PasswordHashing.{hash_password}
use buildos_auth_service.Services.Password.{
  PasswordResetResult, check_reset, complete_reset, hash_reset_token,
}
use buildos_auth_service.Services.Password.Change.{with_password, find-with_password}

abbrev complete_both :
    External
    → (first second : String) (ip_address user_agent : Option String) → ℕ
    → PasswordReset × AuthCredential
    → PasswordReset × AuthCredential
    → Action (PasswordResetResult × PasswordResetResult)
complete_both x first second ip_address user_agent at checked checked' = do
  done ← complete_reset x first ip_address user_agent at checked
  done' ← complete_reset x second ip_address user_agent at checked'
  return (done, done')

-- Two sessions, with a password each: both check, then both write.
abbrev pub confirm_both :
    External
    → (reset_token first second : String) (ip_address user_agent : Option String) → ℕ
    → Action (PasswordResetResult × PasswordResetResult)
confirm_both x reset_token first second ip_address user_agent at = do
  checked ← check_reset x reset_token at
  checked' ← check_reset x reset_token at
  complete_both x first second ip_address user_agent at checked checked'

module _ (x : External) (ip_address user_agent : Option String) (at : ℕ) (r : PasswordReset)
    (c : AuthCredential) where
  -- What a completion writes to the credentials.
  abbrev Completed : String → World → PasswordResetResult → World → Type 0
  Completed new_password w done w' =
      (done.reset ≡ true)
      × (w'.credentials
          ≡ update (has_id c.id) (with_password x new_password w.draws at) w.credentials)
      × (w'.draws ≡ w.draws + 2)

  complete_reset-Completed :
      (new_password : String) (w : World)
      → Returns
          (Completed new_password w)
          (complete_reset x new_password ip_address user_agent at (r, c) w)
  unfolding hash_password Credential.update_password PasswordResets.mark_used
      Token.revoke_all_for_user Events.create_security_event
  complete_reset-Completed new_password w = ground arith

  check_reset-finds :
      (reset_token : String) (w : World)
      → find (is_usable (hash_reset_token x reset_token) at) w.password_resets ≡ some r
      → find (belongs_to r.user_id) w.credentials ≡ some c
      → check_reset x reset_token at w ≡ (ok (r, c), w)
  unfolding PasswordResets.get_active_by_token_hash Credential.get_by_user_id
  check_reset-finds reset_token w usable found = ground (arith, usable, found)

  -- Both sessions have completed, and the credential has the later password.
  abbrev BothCompleted : String → World → PasswordResetResult × PasswordResetResult → World → Type 0
  BothCompleted second w results w' =
      (results.0.reset ≡ true)
      × (results.1.reset ≡ true)
      × (Option.map (λ c'. c'.password_hash) (find (belongs_to r.user_id) w'.credentials)
          ≡ some (x.argon2_hash (w.draws + 2) second))

  later_password :
      (first second : String) (w w' w'' : World) (done done' : PasswordResetResult)
      → find (belongs_to r.user_id) w.credentials ≡ some c
      → Completed first w done w'
      → Completed second w' done' w''
      → Option.map (λ c'. c'.password_hash) (find (belongs_to r.user_id) w''.credentials)
        ≡ some (x.argon2_hash (w.draws + 2) second)
  later_password first second w w' w'' done done' found before after =
      rw
        (
          after.1,
          find-update (belongs_to r.user_id) (has_id c.id) (with_password x second w'.draws at)
              w'.credentials (λ c'. refl),
          before.1,
          find-with_password x first w.draws at r.user_id c w.credentials found,
          before.2,
        )
        (ground (arith, eq_self c.id))

  complete_both-Completed :
      (first second : String) (w : World)
      → find (belongs_to r.user_id) w.credentials ≡ some c
      → Returns
          (BothCompleted second w)
          (complete_both x first second ip_address user_agent at (r, c) (r, c) w)
  complete_both-Completed first second w found =
      Returns-bind (Completed first w) (BothCompleted second w)
        (complete_reset x first ip_address user_agent at (r, c) w)
        (λ done.
          complete_reset x second ip_address user_agent at (r, c) >>= λ done'. return (done, done'))
        (complete_reset-Completed first w)
        (λ done w' before.
          Returns-bind (Completed second w') (BothCompleted second w)
            (complete_reset x second ip_address user_agent at (r, c) w')
            (λ done'. return (done, done')) (complete_reset-Completed second w')
            (λ done' w'' after. (
              before.0,
              after.0,
              later_password first second w w' w'' done done' found before after,
            )))

  -- Two sessions that present the same reset token and both check it before either writes both
  -- complete the reset, where the token has a usable row whose user has a credential: the token has
  -- reset the password twice, and the second session's password is the one that stays.
  pub confirm_both-BothCompleted :
      (reset_token first second : String) (w : World)
      → find (is_usable (hash_reset_token x reset_token) at) w.password_resets ≡ some r
      → find (belongs_to r.user_id) w.credentials ≡ some c
      → Returns
          (λ results w'.
            (results.0.reset ≡ true)
            × (results.1.reset ≡ true)
            × (Option.map (λ c'. c'.password_hash) (find (belongs_to r.user_id) w'.credentials)
                ≡ some (x.argon2_hash (w.draws + 2) second)))
          (confirm_both x reset_token first second ip_address user_agent at w)
  confirm_both-BothCompleted reset_token first second w usable found =
      Returns-after (BothCompleted second w) (check_reset x reset_token at w)
        (λ checked. check_reset x reset_token at >>= λ checked'.
          complete_both x first second ip_address user_agent at checked checked')
        (r, c) w (check_reset-finds reset_token w usable found)
        (Returns-after (BothCompleted second w) (check_reset x reset_token at w)
          (λ checked'. complete_both x first second ip_address user_agent at (r, c) checked') (r, c)
          w (check_reset-finds reset_token w usable found)
          (complete_both-Completed first second w found))
