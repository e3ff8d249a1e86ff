-- ===== src/System/Expiry.antt =====
-- What waiting does: locks end, and refresh tokens and password resets expire.
use buildos_auth_service.Prelude.{
  ℕ, ◌+◌, ◌≤◌, ◌<◌, ◌≡◌, refl, ap, String, Bool, true, false, ◌&&◌, Option, some, arith, find,
  every-find, none, Option-cases, inl, inr, List, ◌∙◌, find-passes,
}
use buildos_auth_service.Core.Config.{minutes, days}
use buildos_auth_service.Core.Exceptions.{Error, password_reset}
use buildos_auth_service.External.{External}
use buildos_auth_service.Models.{AuthCredential, RefreshToken}
use buildos_auth_service.Database.{World, Result, ok, err, is_ok, Result-cases, IfReturns-ok}
use buildos_auth_service.Repositories.Credential.{belongs_to}
use buildos_auth_service.Repositories.Token.{has_hash}
use buildos_auth_service.Repositories.PasswordResets.{is_usable}
use buildos_auth_service.Security.Authentication.{can_authenticate}
use buildos_auth_service.Security.PasswordHashing.{verify_password}
use buildos_auth_service.Services.Context.{RequestContext}
use buildos_auth_service.Services.UserDirectory.{UserDirectory}
use buildos_auth_service.Services.Authentication.Outcome.{admits}
use buildos_auth_service.Services.Login.{login}
use buildos_auth_service.Services.Login.Decision.{status_admits, login_admits, login-login_admits}
use buildos_auth_service.Services.Token.Checks.{check_refresh-Accepted}
use buildos_auth_service.Services.Token.{check_refresh, refresh, hash_refresh_token}
use buildos_auth_service.Services.Password.{confirm_reset, hash_reset_token}
use buildos_auth_service.Services.Password.Reset.{confirm_reset-unusable}
use buildos_auth_service.Api.Auth.{CreateSession}
use buildos_auth_service.System.{CreateUser, Request, handle, handle_all}
use buildos_auth_service.System as System
use buildos_auth_service.System.Kept.Requests.{handle_all_keeps}
use buildos_auth_service.System.Deadlines.{within, within-IsKept, token_by, lock_by, reset_by}

-- The credential is active, and the password fits it.
abbrev pub fits : External → String → Option AuthCredential → Bool
fits x password none = false
fits x password (some c) = c.is_active && verify_password x password c.password_hash

-- Who gets past a login when no credential is locked.
abbrev pub login_fits : External → UserDirectory → String → World → Result (Option ℕ) → Bool
login_fits x users password w (ok (some user_id)) =
    status_admits (users.get_user_status user_id)
    && fits x password (find (belongs_to user_id) w.credentials)
login_fits x users password w (ok none) = false
login_fits x users password w (err e) = false

-- A lock that is over admits whom it would admit without it.
unlocked-admits :
    (x : External) (password : String) (at : ℕ) (found : Option AuthCredential)
    → ((c : AuthCredential) → found ≡ some c → lock_by at c ≡ true)
    → admits x password at found ≡ fits x password found
unfolding can_authenticate
unlocked-admits x password at none over = ground arith
unlocked-admits x password at (some c) over = ground (arith, over c refl)

refresh-unchecked :
    (x : External) (token : String) (ip_address user_agent : Option String) (w : World) (e : Error)
    → (check_refresh x token w.clock w).0 ≡ err e
    → is_ok (refresh x token ip_address user_agent none w).0 ≡ false
unfolding refresh
refresh-unchecked x token ip_address user_agent w e refused = ground (arith, refused)

module _ (x : External) (w : World) (n : ℕ) (held : within x.settings w ≡ true) where
  locks_over :
      minutes x.settings.login_lockout_minutes ≤ n
      → (user_id : ℕ) (c : AuthCredential) → find (belongs_to user_id) w.credentials ≡ some c
      → lock_by (w.clock + n) c ≡ true
  locks_over enough user_id c found = ground (
    arith,
    enough,
    every-find (lock_by (w.clock + minutes x.settings.login_lockout_minutes)) (belongs_to user_id)
        w.credentials c (ground (arith, held)) found,
  )

  login_admits-login_fits :
      minutes x.settings.login_lockout_minutes ≤ n
      → (users : UserDirectory) (password : String) (resolved : Result (Option ℕ))
      → login_admits x users password (record w { clock = w.clock + n }) resolved
        ≡ login_fits x users password w resolved
  login_admits-login_fits enough users password (ok (some user_id)) =
      ap (λ b. status_admits (users.get_user_status user_id) && b)
        (unlocked-admits x password (w.clock + n) (find (belongs_to user_id) w.credentials)
          (locks_over enough user_id))
  login_admits-login_fits enough users password (ok none) = refl
  login_admits-login_fits enough users password (err e) = refl

  token_over :
      days x.settings.refresh_token_expire_days ≤ n
      → (hash : String) (t : RefreshToken) → find (has_hash hash) w.refresh_tokens ≡ some t
      → w.clock + n < t.expires_at
      → ⊥
  token_over enough hash t found early = ground (
    arith,
    enough,
    early,
    every-find (token_by (w.clock + days x.settings.refresh_token_expire_days)) (has_hash hash)
        w.refresh_tokens t (ground (arith, held)) found,
  )

  tokens_over :
      days x.settings.refresh_token_expire_days ≤ n
      → (token : String) (ip_address user_agent : Option String)
      → is_ok (refresh x token ip_address user_agent none (record w { clock = w.clock + n })).0
        ≡ false
  tokens_over enough token ip_address user_agent =
      let v = record w { clock = w.clock + n } in
      elim (Result-cases (check_refresh x token v.clock v).0) [
        | inl (c, e) ↦ absurd (
            let shown =
              IfReturns-ok _ (check_refresh x token v.clock v) c
                (check_refresh-Accepted x token v.clock v) e in
            token_over enough (hash_refresh_token x token) c.stored shown.1 shown.3)
        | inr (e, refused) ↦ refresh-unchecked x token ip_address user_agent v e refused
      ]

  resets_over :
      minutes x.settings.password_reset_expire_minutes ≤ n
      → (hash : String) → find (is_usable hash (w.clock + n)) w.password_resets ≡ none
  resets_over enough hash =
      elim (Option-cases (find (is_usable hash (w.clock + n)) w.password_resets)) [
        | inl missing ↦ missing
        | inr (r, found) ↦ absurd (
            ground (
              arith,
              enough,
              find-passes (is_usable hash (w.clock + n)) w.password_resets found,
              every-find (reset_by (w.clock + minutes x.settings.password_reset_expire_minutes))
                  (is_usable hash (w.clock + n)) w.password_resets r (ground (arith, held)) found,
            ))
      ]

module _ (x : External) (users : UserDirectory) (create_session : CreateSession)
    (create_user : CreateUser) (requests : List Request) (n : ℕ) (w : World)
    (held : within x.settings w ≡ true) where
  held_after : within x.settings (handle_all x users create_session create_user requests w) ≡ true
  held_after =
      handle_all_keeps x users create_session create_user (λ v. within x.settings v ≡ true)
        (within-IsKept x) requests w held

  -- No lock lasts: from a state in which no lock, refresh token or reset ends later than its setting
  -- allows, after any requests and then a wait of at least the lockout period, a login returns
  -- exactly if the directory resolves the identifier to a user whose status is allowed, and that
  -- user's credential is active and verified by the password. Whether it was locked is of no
  -- concern.
  pub login-after_wait :
      (identifier password : String) (context : RequestContext)
      → minutes x.settings.login_lockout_minutes ≤ n
      → is_ok
          (login x users identifier password context (
            handle x users create_session create_user
              (System.wait n)
              (handle_all x users create_session create_user requests w))).0
        ≡ login_fits x users password
            (handle_all x users create_session create_user requests w)
            (users.resolve_identifier identifier)
  unfolding handle
  login-after_wait identifier password context enough =
      let v = handle_all x users create_session create_user requests w in
      login-login_admits x users identifier password context (record v { clock = v.clock + n })
      ∙ login_admits-login_fits x v n held_after enough users password
          (users.resolve_identifier identifier)

  -- From a state in which no lock, refresh token or reset ends later than its setting allows, after
  -- any requests and then a wait of at least the days for which a refresh token is valid, no refresh
  -- token is accepted, whatever the signed token says of its own expiry.
  pub refresh-after_wait :
      (token : String) (ip_address user_agent : Option String)
      → days x.settings.refresh_token_expire_days ≤ n
      → is_ok
          (refresh x token ip_address user_agent none (
            handle x users create_session create_user
              (System.wait n)
              (handle_all x users create_session create_user requests w))).0
        ≡ false
  unfolding handle
  refresh-after_wait token ip_address user_agent enough =
      tokens_over x (handle_all x users create_session create_user requests w) n held_after enough
        token ip_address user_agent

  -- From a state in which no lock, refresh token or reset ends later than its setting allows, after
  -- any requests and then a wait of at least the minutes for which a password reset is valid, every
  -- reset token is refused as invalid or expired.
  pub confirm_reset-after_wait :
      (reset_token new_password : String) (ip_address user_agent : Option String)
      → minutes x.settings.password_reset_expire_minutes ≤ n
      → (confirm_reset x reset_token new_password ip_address user_agent none (
          handle x users create_session create_user
            (System.wait n)
            (handle_all x users create_session create_user requests w))).0
        ≡ err (password_reset "Invalid or expired reset token.")
  unfolding handle
  confirm_reset-after_wait reset_token new_password ip_address user_agent enough =
      let v = handle_all x users create_session create_user requests w in
      confirm_reset-unusable x reset_token new_password ip_address user_agent none
        (record v { clock = v.clock + n })
        (resets_over x v n held_after enough (hash_reset_token x reset_token))
