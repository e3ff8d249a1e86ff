-- ===== src/System/Invariant.antt =====
-- What holds of the stored rows after any sequence of requests.
use buildos_auth_service.Prelude.{◌≡◌, true, List}
use buildos_auth_service.External.{External}
use buildos_auth_service.Database.{World}
use buildos_auth_service.Services.UserDirectory.{UserDirectory}
use buildos_auth_service.Api.Auth.{CreateSession}
use buildos_auth_service.System.{CreateUser, Request, handle_all}
use buildos_auth_service.System.Kept.Requests.{handle_all_keeps}
use buildos_auth_service.System.Consistency.{agrees, agrees-IsKept}
use buildos_auth_service.Core.Config.{Settings}
use buildos_auth_service.System.Deadlines.{within, within-IsKept}
use buildos_auth_service.System.Uniqueness.{unique, unique-IsKept}

-- The flags of each row agree with its times, the unique columns have no value twice, and no time in
-- a row is further ahead of the clock than its setting.
pub record IsConsistent (settings : Settings) (w : World) : Type 0 where
  pub flags : agrees w ≡ true
  pub keys : unique w ≡ true
  pub deadlines : within settings w ≡ true

-- Requests keep the stored rows consistent, whatever they are and however the remote services
-- answer: a credential is locked, a token is revoked and a reset is used exactly if the row has the
-- time of it, a replaced token is revoked, no user has two credentials and no hash two rows, and no
-- lock, refresh token or reset ends later than its setting allows from the clock on.
pub handle_all-IsConsistent :
    (x : External) (users : UserDirectory) (create_session : CreateSession)
    (create_user : CreateUser) (requests : List Request) (w : World)
    → IsConsistent x.settings w
    → IsConsistent x.settings (handle_all x users create_session create_user requests w)
handle_all-IsConsistent x users create_session create_user requests w before = record {
  flags =
      handle_all_keeps x users create_session create_user (λ w'. agrees w' ≡ true) (agrees-IsKept x)
        requests w before.flags;
  keys =
      handle_all_keeps x users create_session create_user (λ w'. unique w' ≡ true) (unique-IsKept x)
        requests w before.keys;
  deadlines =
      handle_all_keeps x users create_session create_user (λ w'. within x.settings w' ≡ true)
        (within-IsKept x) requests w before.deadlines;
}
