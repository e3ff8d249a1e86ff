-- ===== src/Services/Password/Change.antt =====
-- Password changes: who may, and what is left.
use mathlib.Core.Option
use buildos_auth_service.Prelude.{
  ℕ, ◌≡◌, refl, ap, ◌∙◌, update, List, String, Bool, true, false, not, ◌&&◌, Option, none, some,
  List, [], find, select, find-update, updated, or_default, arith, eq_self, str_eq,
}
use buildos_auth_service.Models.{AuthCredential}
use buildos_auth_service.External.{External}
use buildos_auth_service.Database.{World, IfReturns, is_ok}
use buildos_auth_service.Repositories.Credential.{belongs_to, has_id}
use buildos_auth_service.Repositories.Token.{in_scope}
use buildos_auth_service.Repositories.Token.Scope.{select-in_scope-revoked}
use buildos_auth_service.Security.PasswordHashing.{verify_password}
use buildos_auth_service.Services.Context.{RequestContext}
use buildos_auth_service.Services.Password.{change_password}

-- The specification: an active credential, the current password, and another new one.
abbrev pub may_change : External → String → String → Option AuthCredential → Bool
may_change x current_password new_password none = false
may_change x current_password new_password (some c) =
    c.is_active
    && (verify_password x current_password c.password_hash
        && not (str_eq current_password new_password))

-- The credential with the new hash.
abbrev pub with_password : External → String → ℕ → ℕ → AuthCredential → AuthCredential
with_password x new_password salt at c = record c {
  password_hash = x.argon2_hash salt new_password;
  password_changed_at = at;
}

module _ (x : External) (user_id : ℕ) (current_password new_password : String)
    (context : RequestContext) (now : Option ℕ) (w : World) where
  -- A password change returns exactly if the user has an active credential, the current password is
  -- right, and the new password is another one. A lock does not prevent it.
  pub change_password-may_change :
      is_ok (change_password x user_id current_password new_password context now w).0
      ≡ may_change x current_password new_password (find (belongs_to user_id) w.credentials)
  unfolding change_password
  change_password-may_change = ground arith

  -- After a password change the user's credential has the hash of the new password and the time of
  -- the change and is otherwise as it was, no active token of the user is left in the context's
  -- scope, and the result says that it was changed.
  pub change_password-with_password :
      IfReturns
        (λ r w'.
          (find (belongs_to user_id) w'.credentials
            ≡ Option.map
                (with_password x new_password w.draws (or_default now w.clock))
                (find (belongs_to user_id) w.credentials))
          × (select
                (in_scope user_id
                  (some context.context_type)
                  context.organization_id
                  context.membership_id)
                w'.refresh_tokens
              ≡ [])
          × (r.changed ≡ true))
        (change_password x user_id current_password new_password context now w)
  unfolding change_password
  change_password-with_password = grind (
    arith,
    find-update,
    eq_self,
    select-in_scope-revoked user_id (some context.context_type) context.organization_id
        context.membership_id (or_default now w.clock) w.refresh_tokens,
  )

-- The stored credential after the update of its password.
pub find-with_password :
    (x : External) (new_password : String) (salt at user_id : ℕ) (c : AuthCredential)
    (credentials : List AuthCredential)
    → find (belongs_to user_id) credentials ≡ some c
    → find
        (belongs_to user_id)
        (update (has_id c.id) (with_password x new_password salt at) credentials)
      ≡ some (with_password x new_password salt at c)
find-with_password x new_password salt at user_id c credentials e =
    find-update (belongs_to user_id) (has_id c.id) (with_password x new_password salt at)
      credentials (λ r. refl)
    ∙ ap (Option.map (updated (has_id c.id) (with_password x new_password salt at))) e
    ∙ rw (eq_self c.id) refl
