-- ===== src/Repositories/Token/Scope.antt =====
-- The active tokens in a scope: bulk revocation and listing.
use mathlib.Core.Option
use mathlib.Core.List.{Perm}
use buildos_auth_service.Prelude.{
  ℕ, ◌≡◌, refl, String, false, Option, List, [], find, select, update, updated, length, arith,
  find-update, select-update_none, sort_desc-IsDescending, sort_desc-perm, IsDescending,
}
use buildos_auth_service.Models.{RefreshToken}
use buildos_auth_service.Database.{World, Returns}
use buildos_auth_service.Repositories.Token.{
  has_hash, in_scope, revoked, revoke_all_for_user, get_active_by_user,
}

module _ (user_id : ℕ) (context_type : Option String)
    (organization_id membership_id : Option ℕ) where
  in_scope-revoked :
      (at : ℕ) (t : RefreshToken)
      → in_scope user_id context_type organization_id membership_id (revoked at t) ≡ false
  in_scope-revoked at t = ground arith

  pub select-in_scope-revoked :
      (at : ℕ) (tokens : List RefreshToken)
      → select
          (in_scope user_id context_type organization_id membership_id)
          (update (in_scope user_id context_type organization_id membership_id) (revoked at) tokens)
        ≡ []
  select-in_scope-revoked at tokens =
      select-update_none (in_scope user_id context_type organization_id membership_id) (revoked at)
        tokens (λ t h. in_scope-revoked at t)

  -- Bulk revocation answers with the number of active tokens in the scope, leaves none of them
  -- active, and changes of the token that any hash finds nothing but, if it was in the scope, its
  -- revocation.
  pub revoke_all_for_user-revoked :
      (at : ℕ) (hash : String) (w : World)
      → Returns
          (λ n w'.
            (n
              ≡ length (
                  select
                    (in_scope user_id context_type organization_id membership_id)
                    w.refresh_tokens))
            × (select
                  (in_scope user_id context_type organization_id membership_id)
                  w'.refresh_tokens
                ≡ [])
            × (find (has_hash hash) w'.refresh_tokens
                ≡ Option.map
                    (updated
                      (in_scope user_id context_type organization_id membership_id)
                      (revoked at))
                    (find (has_hash hash) w.refresh_tokens)))
          (revoke_all_for_user user_id at context_type organization_id membership_id w)
  unfolding revoke_all_for_user
  revoke_all_for_user-revoked at hash w = (
    refl,
    select-in_scope-revoked at w.refresh_tokens,
    find-update (has_hash hash) (in_scope user_id context_type organization_id membership_id)
        (revoked at) w.refresh_tokens (λ t. refl),
  )

  -- The list of a user's active tokens has each matching row, in the order of creation, newest first.
  pub get_active_by_user-newest_first :
      (w : World)
      → Returns
          (λ tokens w'.
            Perm tokens (
              select (in_scope user_id context_type organization_id membership_id) w.refresh_tokens)
            × IsDescending (λ t. t.created_at) tokens
            × (w' ≡ w))
          (get_active_by_user user_id context_type organization_id membership_id w)
  unfolding get_active_by_user
  get_active_by_user-newest_first w = (
    sort_desc-perm (λ t. t.created_at)
        (select (in_scope user_id context_type organization_id membership_id) w.refresh_tokens),
    sort_desc-IsDescending (λ t. t.created_at)
        (select (in_scope user_id context_type organization_id membership_id) w.refresh_tokens),
    refl,
  )
