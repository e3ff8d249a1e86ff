-- ===== src/System/Kept/Services.antt =====
-- Login and refresh, from what their parts keep.
use buildos_auth_service.Prelude.{
  ℕ, ◌≡◌, refl, sym, subst, inl, inr, String, Option, none, some, Option-cases, arith,
  if◌then◌else◌,
}
use buildos_auth_service.External.{External}
use buildos_auth_service.Database.{World, ok, err, bind-world, bind-unchanged}
use buildos_auth_service.Services.Context.{RequestContext}
use buildos_auth_service.Services.UserDirectory.{UserDirectory}
use buildos_auth_service.Services.Authentication.{authenticate}
use buildos_auth_service.Services.Login.{is_allowed_status, login}
use buildos_auth_service.Services.Token.{
  Presented, issue_tokens, check_refresh, rotate_presented, retire_presented, refresh,
}
use buildos_auth_service.Services.Token.Checks.{check_refresh-world}
use buildos_auth_service.System.Kept.{IsKept}

-- The user whom a login authenticates, if it gets so far.
abbrev reached : UserDirectory → String → Option ℕ
reached users identifier = elim (users.resolve_identifier identifier) [
  | err e ↦ none
  | ok none ↦ none
  | ok (some user_id) ↦ elim (users.get_user_status user_id) [
    | err e ↦ none
    | ok status ↦ if is_allowed_status status.status then some user_id else none
  ]
]

module _ (x : External) (users : UserDirectory) (identifier password : String)
    (context : RequestContext) (w : World) where
  login-world_none :
      reached users identifier ≡ none → (login x users identifier password context w).1 ≡ w
  unfolding login
  login-world_none e = ground (arith, e)

  login-world_some :
      (user_id : ℕ)
      → reached users identifier ≡ some user_id
      → (login x users identifier password context w).1
        ≡ (authenticate x user_id password identifier context none w).1
  unfolding login
  login-world_some user_id e = ground (arith, e)

module _ (x : External) (Q : World → Type 0) (kept : IsKept x Q) where
  pub login_keeps :
      (users : UserDirectory) (identifier password : String) (context : RequestContext) (w : World)
      → Q w
      → Q (login x users identifier password context w).1
  login_keeps users identifier password context w h =
      elim (Option-cases (reached users identifier)) [
        | inl e ↦ subst Q (sym (login-world_none x users identifier password context w e)) h
        | inr (user_id, e) ↦
            subst Q (sym (login-world_some x users identifier password context w user_id e))
              (kept.authenticated user_id password identifier context w h)
      ]

  rotate_presented_keeps :
      (c : Presented) (ip_address user_agent : Option String) (w : World)
      → Q w
      → Q (rotate_presented x c ip_address user_agent w.clock w).1
  unfolding rotate_presented
  rotate_presented_keeps c ip_address user_agent w h =
      bind-world Q
        (issue_tokens x c.user_id c.context_type c.organization_id c.membership_id (some w.clock) w)
        (retire_presented x c ip_address user_agent w.clock)
        (kept.issued c.user_id c.context_type c.organization_id c.membership_id (some w.clock) w
          refl h)
        (λ pair w' h'. kept.retired c ip_address user_agent w.clock pair w' h')

  pub refresh_keeps :
      (token : String) (ip_address user_agent : Option String) (w : World)
      → Q w
      → Q (refresh x token ip_address user_agent none w).1
  unfolding refresh
  refresh_keeps token ip_address user_agent w h =
      bind-unchanged Q w (check_refresh x token w.clock w)
        (λ c. rotate_presented x c ip_address user_agent w.clock)
        (check_refresh-world x token w.clock w) h
        (λ c. rotate_presented_keeps c ip_address user_agent w h)
