-- ===== src/Repositories/Token.antt =====
-- app/repositories/token_repository.py
pub mod Scope
use buildos_auth_service.Prelude.{
  ℕ, String, Bool, true, false, not, ◌&&◌, Option, none, some, List, [], ◌∷◌, ◌++◌, ◌==◌, str_eq,
  ltb, find, select, update, length, sort_desc,
}
use buildos_auth_service.Core.Exceptions.{integrity_error}
use buildos_auth_service.Models.{RefreshToken}
use buildos_auth_service.External.{External}
use buildos_auth_service.Database.{Action, ok, gets, draw, raise_if, modify, ◌>>=◌, ◌>>◌, return}

abbrev pub has_hash : String → RefreshToken → Bool
has_hash token_hash t = str_eq t.token_hash token_hash

abbrev pub has_id : ℕ → RefreshToken → Bool
has_id id t = t.id == id

abbrev pub is_taken : Option RefreshToken → Bool
is_taken none = false
is_taken (some t) = true

unfoldable pub get_by_token_hash : String → Action (Option RefreshToken)
get_by_token_hash token_hash = gets (λ w. find (has_hash token_hash) w.refresh_tokens)

-- The unique index on `token_hash` refuses a second row with the hash. The ids that uuid4 draws are
-- taken not to collide.
unfoldable pub create :
    External
    → (user_id : ℕ) (token_hash : String) (expires_at : ℕ) (context_type : String)
    → (organization_id membership_id : Option ℕ) → Action RefreshToken
create x user_id token_hash expires_at context_type organization_id membership_id = do
  raise_if (← gets (λ w. is_taken (find (has_hash token_hash) w.refresh_tokens))) integrity_error
  d ← draw
  now ← gets (λ w. w.clock)
  let token : RefreshToken = record {
    id = x.uuid4 d;
    user_id = user_id;
    context_type = context_type;
    organization_id = organization_id;
    membership_id = membership_id;
    token_hash = token_hash;
    expires_at = expires_at;
    revoked_at = none;
    is_revoked = false;
    created_at = now;
    last_used_at = none;
    replaced_by_token_id = none;
  }
  modify (λ w. record w { refresh_tokens = w.refresh_tokens ++ token ∷ [] })
  return token

unfoldable pub get_active_by_token_hash : String → ℕ → Action (Option RefreshToken)
get_active_by_token_hash token_hash now = gets (λ w.
    find (λ t. has_hash token_hash t && not t.is_revoked && ltb now t.expires_at) w.refresh_tokens)

-- A filter that is applied if its argument is not None; a NULL column equals nothing.
abbrev pub allows_id : Option ℕ → Option ℕ → Bool
allows_id none column = true
allows_id (some v) none = false
allows_id (some v) (some u) = u == v

abbrev pub allows_text : Option String → String → Bool
allows_text none column = true
allows_text (some v) column = str_eq column v

-- The rows that are active and in the requested scope.
abbrev pub in_scope : ℕ → Option String → Option ℕ → Option ℕ → RefreshToken → Bool
in_scope user_id context_type organization_id membership_id t =
    t.user_id == user_id
    && (not t.is_revoked
        && (allows_text context_type t.context_type
            && (allows_id organization_id t.organization_id
                && allows_id membership_id t.membership_id)))

unfoldable pub get_active_by_user :
    ℕ → Option String → Option ℕ → Option ℕ → Action (List RefreshToken)
get_active_by_user user_id context_type organization_id membership_id = gets (λ w.
    sort_desc (λ t. t.created_at)
      (select (in_scope user_id context_type organization_id membership_id) w.refresh_tokens))

-- Assignments to an object's columns, flushed.
abbrev pub write : (RefreshToken → RefreshToken) → RefreshToken → Action RefreshToken
write change t w =
    (ok (change t), record w { refresh_tokens = update (has_id t.id) change w.refresh_tokens })

unfoldable pub revoke : RefreshToken → ℕ → Action RefreshToken
revoke token revoked_at =
    write (λ t. record t { is_revoked = true; revoked_at = some revoked_at }) token

-- The two assignments of the loop body.
abbrev pub revoked : ℕ → RefreshToken → RefreshToken
revoked revoked_at t = record t { is_revoked = true; revoked_at = some revoked_at }

-- The loop writes each selected row, and the result is their number.
unfoldable pub revoke_all_for_user :
    (user_id revoked_at : ℕ) → Option String → Option ℕ → Option ℕ → Action ℕ
revoke_all_for_user user_id revoked_at context_type organization_id membership_id w =
    let selected = in_scope user_id context_type organization_id membership_id in
    (
      ok (length (select selected w.refresh_tokens)),
      record w { refresh_tokens = update selected (revoked revoked_at) w.refresh_tokens },
    )

unfoldable pub mark_used : RefreshToken → ℕ → Action RefreshToken
mark_used token used_at = write (λ t. record t { last_used_at = some used_at }) token

unfoldable pub rotate : RefreshToken → ℕ → ℕ → Action RefreshToken
rotate token replacement_token_id revoked_at =
    write
      (λ t. record t {
        is_revoked = true;
        revoked_at = some revoked_at;
        replaced_by_token_id = some replacement_token_id;
      })
      token
