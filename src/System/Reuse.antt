-- ===== src/System/Reuse.antt =====
-- A refresh token whose row is revoked, over a sequence of requests.
use buildos_auth_service.Prelude.{ℕ, ◌≡◌, String, true, false, Option, List}
use buildos_auth_service.External.{External}
use buildos_auth_service.Database.{World, IfReturns, IfReturns-map}
use buildos_auth_service.Services.UserDirectory.{UserDirectory}
use buildos_auth_service.Services.Token.{refresh, hash_refresh_token}
use buildos_auth_service.Services.Token.Revocation.{is_spent, refresh-spent, refresh-is_spent}
use buildos_auth_service.Api.Auth.{CreateSession}
use buildos_auth_service.System.{CreateUser, Request, handle_all}
use buildos_auth_service.System.Kept.Requests.{handle_all_keeps}
use buildos_auth_service.System.Past.{is_past-IsKept}

module _ (x : External) (users : UserDirectory) (create_session : CreateSession)
    (create_user : CreateUser) (hash : String) where
  -- Once the row of a refresh token is revoked, it stays so: no request, in any order and at any
  -- time, makes it active again.
  pub handle_all-spent :
      (requests : List Request) (w : World)
      → is_spent hash w ≡ true
      → is_spent hash (handle_all x users create_session create_user requests w) ≡ true
  handle_all-spent requests w spent =
      handle_all_keeps x users create_session create_user (λ w'. is_spent hash w' ≡ true)
        (is_past-IsKept x false hash) requests w spent

module _ (x : External) (users : UserDirectory) (create_session : CreateSession)
    (create_user : CreateUser) where
  -- A refresh token whose row is revoked (it was used, logged out or swept up by a password change)
  -- never yields tokens again, whatever requests come in between.
  pub handle_all-refresh_spent :
      (requests : List Request) (token : String) (ip_address user_agent : Option String)
      (now : Option ℕ) (w : World)
      → is_spent (hash_refresh_token x token) w ≡ true
      → IfReturns
          (λ pair w'. ⊥)
          (refresh x token ip_address user_agent now
            (handle_all x users create_session create_user requests w))
  handle_all-refresh_spent requests token ip_address user_agent now w spent =
      refresh-spent x token ip_address user_agent now
        (handle_all x users create_session create_user requests w)
        (handle_all-spent x users create_session create_user (hash_refresh_token x token) requests w
          spent)

  -- A refresh token works once: after a refresh that returns, no sequence of requests, logins and
  -- registrations among them, brings the service to a state in which the same token is refreshed
  -- again, whoever presents it and whenever.
  pub refresh-once :
      (requests : List Request) (token : String)
      (ip_address user_agent ip_address' user_agent' : Option String) (now later : Option ℕ)
      (w : World)
      → IfReturns
          (λ pair w'.
            IfReturns
              (λ again w''. ⊥)
              (refresh x token ip_address' user_agent' later
                (handle_all x users create_session create_user requests w')))
          (refresh x token ip_address user_agent now w)
  refresh-once requests token ip_address user_agent ip_address' user_agent' now later w =
      IfReturns-map _ _ (refresh x token ip_address user_agent now w)
        (λ pair w' spent.
          handle_all-refresh_spent requests token ip_address' user_agent' later w' spent)
        (refresh-is_spent x token ip_address user_agent now w)
