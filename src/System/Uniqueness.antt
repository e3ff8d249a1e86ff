-- ===== src/System/Uniqueness.antt =====
-- The unique columns: a user has one credential, and a hash stands in one row of its table.
use buildos_auth_service.Prelude.{
  ℕ, ◌≡◌, String, Bool, true, ◌&&◌, Option, some, arith, distinct, distinct-append, distinct-update,
  false, none, find, update,
}
use buildos_auth_service.External.{External}
use buildos_auth_service.Models.{AuthCredential}
use buildos_auth_service.Database.{World}
use buildos_auth_service.Services.Context.{RequestContext}
use buildos_auth_service.Services.UserDirectory.{UserDirectory}
use buildos_auth_service.Services.Authentication.{authenticate}
use buildos_auth_service.Services.Token.{
  Presented, TokenPair, retire_presented, issue_tokens, revoke, revoke_all,
}
use buildos_auth_service.Services.Password.{change_password, request_reset, confirm_reset}
use buildos_auth_service.Services.CredentialSync.{sync_status, sync_credential}
use buildos_auth_service.Repositories.Credential
use buildos_auth_service.Repositories.Token
use buildos_auth_service.Repositories.PasswordResets
use buildos_auth_service.Services.Registration.{UserFields, register}
use buildos_auth_service.System.{CreateUser, undisturbed}
use buildos_auth_service.System.Kept.{IsKept}

abbrev pub unique : World → Bool
unique w =
    distinct Credential.belongs_to (λ c. c.user_id) w.credentials
    && distinct Token.has_hash (λ t. t.token_hash) w.refresh_tokens
    && distinct PasswordResets.has_hash (λ r. r.token_hash) w.password_resets

module _ (x : External) (w : World) (held : unique w ≡ true) where
  authenticate-unique :
      (user_id : ℕ) (password identifier : String) (context : RequestContext) (now : Option ℕ)
      → unique (authenticate x user_id password identifier context now w).1 ≡ true
  unfolding authenticate
  authenticate-unique user_id password identifier context now = grind (arith, held, distinct-update)

  issue_tokens-unique :
      (user_id : ℕ) (context_type : String) (organization_id membership_id now : Option ℕ)
      → unique (issue_tokens x user_id context_type organization_id membership_id now w).1 ≡ true
  unfolding issue_tokens
  issue_tokens-unique user_id context_type organization_id membership_id now =
      grind (arith, held, distinct-append, distinct-update)

  revoke_all-unique :
      (user_id : ℕ) (context_type : Option String) (organization_id membership_id now : Option ℕ)
      → unique (revoke_all user_id context_type organization_id membership_id now w).1 ≡ true
  unfolding revoke_all
  revoke_all-unique user_id context_type organization_id membership_id now =
      grind (arith, held, distinct-update)

  revoke-unique :
      (token : String) (ip_address user_agent : Option String) (now : Option ℕ)
      → unique (revoke x token ip_address user_agent now w).1 ≡ true
  unfolding revoke
  revoke-unique token ip_address user_agent now = grind (arith, held, distinct-update)

  change_password-unique :
      (user_id : ℕ) (current_password new_password : String) (context : RequestContext)
      (now : Option ℕ)
      → unique (change_password x user_id current_password new_password context now w).1 ≡ true
  unfolding change_password
  change_password-unique user_id current_password new_password context now =
      grind (arith, held, distinct-update)

  request_reset-unique :
      (users : UserDirectory) (identifier : String) (ip_address : Option String) (now : Option ℕ)
      → unique (request_reset x users identifier ip_address now w).1 ≡ true
  unfolding request_reset
  request_reset-unique users identifier ip_address now = grind (arith, held, distinct-append)

  confirm_reset-unique :
      (reset_token new_password : String) (ip_address user_agent : Option String) (now : Option ℕ)
      → unique (confirm_reset x reset_token new_password ip_address user_agent now w).1 ≡ true
  unfolding confirm_reset
  confirm_reset-unique reset_token new_password ip_address user_agent now =
      grind (arith, held, distinct-update)

  activity-unique :
      (id : ℕ) (is_active : Bool)
      → unique (record w {
        credentials =
            update (Credential.has_id id) (λ c. record c { is_active = is_active }) w.credentials;
      })
        ≡ true
  activity-unique id is_active = grind (arith, held, distinct-update)

  sync_credential-unique :
      (user_status : String) (found : Option AuthCredential)
      → unique (sync_credential user_status found w).1 ≡ true
  unfolding Credential.activate Credential.deactivate
  sync_credential-unique user_status none = held
  sync_credential-unique user_status (some c) =
      ground (arith, held, activity-unique c.id true, activity-unique c.id false)

  sync_status-unique :
      (user_id : ℕ) (user_status : String) (is_active : Bool)
      → unique (sync_status user_id user_status is_active w).1 ≡ true
  unfolding sync_status
  sync_status-unique user_id user_status is_active =
      sync_credential-unique user_status (find (Credential.belongs_to user_id) w.credentials)

  retire_presented-unique :
      (c : Presented) (ip_address user_agent : Option String) (at : ℕ) (pair : TokenPair)
      → unique (retire_presented x c ip_address user_agent at pair w).1 ≡ true
  unfolding retire_presented
  retire_presented-unique c ip_address user_agent at pair = grind (arith, held, distinct-update)

module _ (x : External) where
  register-unique :
      (create_user : CreateUser) (key : String) (fields : UserFields) (password : String)
      (ip_address user_agent : Option String) (w : World)
      → unique w ≡ true
      → unique (register x (undisturbed create_user) key fields password ip_address user_agent w).1
        ≡ true
  unfolding register
  register-unique create_user key fields password ip_address user_agent w held =
      grind (arith, held, distinct-append, distinct-update)

  pub unique-IsKept : IsKept x (λ w. unique w ≡ true)
  unique-IsKept = record {
    drawn = λ draws w h. h;
    waited = λ n w h. h;
    issued = λ user_id context_type organization_id membership_id now w at h.
        issue_tokens-unique x w h user_id context_type organization_id membership_id now;
    authenticated = λ user_id password identifier context w h.
        authenticate-unique x w h user_id password identifier context none;
    registered = λ create_user key fields password ip_address user_agent w h.
        register-unique create_user key fields password ip_address user_agent w h;
    retired = λ c ip_address user_agent at pair w h.
        retire_presented-unique x w h c ip_address user_agent at pair;
    revoked =
        λ token ip_address user_agent now w h. revoke-unique x w h token ip_address user_agent now;
    changed = λ user_id current_password new_password context now w h.
        change_password-unique x w h user_id current_password new_password context now;
    requested = λ users identifier ip_address w h.
        request_reset-unique x w h users identifier ip_address none;
    confirmed = λ reset_token new_password ip_address user_agent now w h.
        confirm_reset-unique x w h reset_token new_password ip_address user_agent now;
    synchronized =
        λ user_id user_status is_active w h. sync_status-unique x w h user_id user_status is_active;
  }
