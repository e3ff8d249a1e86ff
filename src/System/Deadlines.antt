-- ===== src/System/Deadlines.antt =====
-- The times in the rows that lie ahead, against the clock and the settings: the end of a lock, and
-- the expiry of a refresh token and of a password reset.
use buildos_auth_service.Prelude.{
  ℕ, ◌+◌, ◌≡◌, String, Bool, true, not, ◌&&◌, ◌||◌, Option, some, leb, arith, every, every-append,
  every-update, every-implied, false, none, find, update, or_default,
}
use buildos_auth_service.Core.Config.{Settings, minutes, days}
use buildos_auth_service.External.{External}
use buildos_auth_service.Models.{AuthCredential, RefreshToken, PasswordReset}
use buildos_auth_service.Database.{World}
use buildos_auth_service.Security.Authentication.{lock_is_over}
use buildos_auth_service.Services.Context.{RequestContext}
use buildos_auth_service.Services.UserDirectory.{UserDirectory}
use buildos_auth_service.Services.Authentication.{authenticate}
use buildos_auth_service.Services.Token.{
  Presented, TokenPair, retire_presented, issue_tokens, revoke, revoke_all,
}
use buildos_auth_service.Services.Password.{change_password, request_reset, confirm_reset}
use buildos_auth_service.Services.CredentialSync.{sync_status, sync_credential}
use buildos_auth_service.Repositories.Credential
use buildos_auth_service.Services.Registration.{UserFields, register}
use buildos_auth_service.System.{CreateUser, undisturbed}
use buildos_auth_service.System.Kept.{IsKept}

-- A lock is over at the time; there is no lock without an end.
abbrev pub lock_by : ℕ → AuthCredential → Bool
lock_by end c = not c.is_locked || lock_is_over c.locked_until end

abbrev pub token_by : ℕ → RefreshToken → Bool
token_by end t = leb t.expires_at end

abbrev pub reset_by : ℕ → PasswordReset → Bool
reset_by end r = leb r.expires_at end

-- From the clock on, no time is further away than its setting.
abbrev pub within : Settings → World → Bool
within settings w =
    every (lock_by (w.clock + minutes settings.login_lockout_minutes)) w.credentials
    && every (token_by (w.clock + days settings.refresh_token_expire_days)) w.refresh_tokens
    && every (reset_by (w.clock + minutes settings.password_reset_expire_minutes)) w.password_resets

module _ (x : External) (w : World) (held : within x.settings w ≡ true) where
  wait-within : (n : ℕ) → within x.settings (record w { clock = w.clock + n }) ≡ true
  wait-within n = ground (
    arith,
    held,
    every-implied (lock_by (w.clock + minutes x.settings.login_lockout_minutes))
        (lock_by (w.clock + n + minutes x.settings.login_lockout_minutes)) w.credentials
        (λ c h. ground (arith, h)) (ground (arith, held)),
    every-implied (token_by (w.clock + days x.settings.refresh_token_expire_days))
        (token_by (w.clock + n + days x.settings.refresh_token_expire_days)) w.refresh_tokens
        (λ t h. ground (arith, h)) (ground (arith, held)),
    every-implied (reset_by (w.clock + minutes x.settings.password_reset_expire_minutes))
        (reset_by (w.clock + n + minutes x.settings.password_reset_expire_minutes))
        w.password_resets (λ r h. ground (arith, h)) (ground (arith, held)),
  )

  authenticate-within :
      (user_id : ℕ) (password identifier : String) (context : RequestContext)
      → within x.settings (authenticate x user_id password identifier context none w).1 ≡ true
  unfolding authenticate
  authenticate-within user_id password identifier context = grind (arith, held, every-update)

  issue_tokens-within :
      (user_id : ℕ) (context_type : String) (organization_id membership_id now : Option ℕ)
      → or_default now w.clock ≡ w.clock
      → within x.settings
          (issue_tokens x user_id context_type organization_id membership_id now w).1
        ≡ true
  unfolding issue_tokens every
  issue_tokens-within user_id context_type organization_id membership_id now at =
      grind (arith, held, at, every-append, every-update)

  revoke_all-within :
      (user_id : ℕ) (context_type : Option String) (organization_id membership_id now : Option ℕ)
      → within x.settings (revoke_all user_id context_type organization_id membership_id now w).1
        ≡ true
  unfolding revoke_all
  revoke_all-within user_id context_type organization_id membership_id now =
      grind (arith, held, every-update)

  revoke-within :
      (token : String) (ip_address user_agent : Option String) (now : Option ℕ)
      → within x.settings (revoke x token ip_address user_agent now w).1 ≡ true
  unfolding revoke
  revoke-within token ip_address user_agent now = grind (arith, held, every-update)

  change_password-within :
      (user_id : ℕ) (current_password new_password : String) (context : RequestContext)
      (now : Option ℕ)
      → within x.settings (change_password x user_id current_password new_password context now w).1
        ≡ true
  unfolding change_password
  change_password-within user_id current_password new_password context now =
      grind (arith, held, every-update)

  request_reset-within :
      (users : UserDirectory) (identifier : String) (ip_address : Option String)
      → within x.settings (request_reset x users identifier ip_address none w).1 ≡ true
  unfolding request_reset every
  request_reset-within users identifier ip_address = grind (arith, held, every-append)

  confirm_reset-within :
      (reset_token new_password : String) (ip_address user_agent : Option String) (now : Option ℕ)
      → within x.settings (confirm_reset x reset_token new_password ip_address user_agent now w).1
        ≡ true
  unfolding confirm_reset
  confirm_reset-within reset_token new_password ip_address user_agent now =
      grind (arith, held, every-update)

  activity-within :
      (id : ℕ) (is_active : Bool)
      → within x.settings (record w {
        credentials =
            update (Credential.has_id id) (λ c. record c { is_active = is_active }) w.credentials;
      })
        ≡ true
  activity-within id is_active = grind (arith, held, every-update)

  sync_credential-within :
      (user_status : String) (found : Option AuthCredential)
      → within x.settings (sync_credential user_status found w).1 ≡ true
  unfolding Credential.activate Credential.deactivate
  sync_credential-within user_status none = held
  sync_credential-within user_status (some c) =
      ground (arith, held, activity-within c.id true, activity-within c.id false)

  sync_status-within :
      (user_id : ℕ) (user_status : String) (is_active : Bool)
      → within x.settings (sync_status user_id user_status is_active w).1 ≡ true
  unfolding sync_status
  sync_status-within user_id user_status is_active =
      sync_credential-within user_status (find (Credential.belongs_to user_id) w.credentials)

  retire_presented-within :
      (c : Presented) (ip_address user_agent : Option String) (at : ℕ) (pair : TokenPair)
      → within x.settings (retire_presented x c ip_address user_agent at pair w).1 ≡ true
  unfolding retire_presented
  retire_presented-within c ip_address user_agent at pair = grind (arith, held, every-update)

module _ (x : External) where
  register-within :
      (create_user : CreateUser) (key : String) (fields : UserFields) (password : String)
      (ip_address user_agent : Option String) (w : World)
      → within x.settings w ≡ true
      → within x.settings
          (register x (undisturbed create_user) key fields password ip_address user_agent w).1
        ≡ true
  unfolding register every
  register-within create_user key fields password ip_address user_agent w held =
      grind (arith, held, every-append, every-update)

  pub within-IsKept : IsKept x (λ w. within x.settings w ≡ true)
  within-IsKept = record {
    drawn = λ draws w h. h;
    waited = λ n w h. wait-within x w h n;
    issued = λ user_id context_type organization_id membership_id now w at h.
        issue_tokens-within x w h user_id context_type organization_id membership_id now at;
    authenticated = λ user_id password identifier context w h.
        authenticate-within x w h user_id password identifier context;
    registered = λ create_user key fields password ip_address user_agent w h.
        register-within create_user key fields password ip_address user_agent w h;
    retired = λ c ip_address user_agent at pair w h.
        retire_presented-within x w h c ip_address user_agent at pair;
    revoked =
        λ token ip_address user_agent now w h. revoke-within x w h token ip_address user_agent now;
    changed = λ user_id current_password new_password context now w h.
        change_password-within x w h user_id current_password new_password context now;
    requested =
        λ users identifier ip_address w h. request_reset-within x w h users identifier ip_address;
    confirmed = λ reset_token new_password ip_address user_agent now w h.
        confirm_reset-within x w h reset_token new_password ip_address user_agent now;
    synchronized =
        λ user_id user_status is_active w h. sync_status-within x w h user_id user_status is_active;
  }
