-- ===== src/Repositories/LoginAttempts.antt =====
-- app/repositories/login_attempt_repository.py. The widths of the text columns are not looked at here.
use buildos_auth_service.Prelude.{
  ℕ, String, Bool, not, ◌&&◌, Option, List, [], ◌∷◌, ◌++◌, str_eq, leb, select, length, sort_desc,
}
use buildos_auth_service.Models.{LoginAttempt}
use buildos_auth_service.External.{External}
use buildos_auth_service.Database.{Action, gets, draw, modify, ◌>>=◌, ◌>>◌, return}
use buildos_auth_service.Repositories.Event.{column_is}

unfoldable pub create :
    External
    → (identifier : String) (successful : Bool) (user_id : Option ℕ) (context_type : String)
    → (organization_id membership_id : Option ℕ)
    → (ip_address user_agent failure_reason : Option String) → Action LoginAttempt
create x identifier successful user_id context_type organization_id membership_id ip_address
      user_agent failure_reason =
    do
      d ← draw
      now ← gets (λ w. w.clock)
      let attempt : LoginAttempt = record {
        id = x.uuid4 d;
        user_id = user_id;
        identifier = identifier;
        context_type = context_type;
        organization_id = organization_id;
        membership_id = membership_id;
        ip_address = ip_address;
        user_agent = user_agent;
        successful = successful;
        failure_reason = failure_reason;
        attempted_at = now;
      }
      modify (λ w. record w { login_attempts = w.login_attempts ++ attempt ∷ [] })
      return attempt

abbrev pub by_identifier : String → ℕ → LoginAttempt → Bool
by_identifier identifier since a = str_eq a.identifier identifier && leb since a.attempted_at

abbrev pub by_user : ℕ → ℕ → LoginAttempt → Bool
by_user user_id since a = column_is user_id a.user_id && leb since a.attempted_at

unfoldable pub get_recent_by_identifier : String → ℕ → Action (List LoginAttempt)
get_recent_by_identifier identifier since = gets (λ w.
    sort_desc (λ a. a.attempted_at) (select (by_identifier identifier since) w.login_attempts))

unfoldable pub get_recent_by_user : ℕ → ℕ → Action (List LoginAttempt)
get_recent_by_user user_id since =
    gets (λ w. sort_desc (λ a. a.attempted_at) (select (by_user user_id since) w.login_attempts))

unfoldable pub count_failed_by_identifier : String → ℕ → Action ℕ
count_failed_by_identifier identifier since = gets (λ w. length (
    select (λ a. str_eq a.identifier identifier && (not a.successful && leb since a.attempted_at))
      w.login_attempts))

unfoldable pub count_failed_by_user : ℕ → ℕ → Action ℕ
count_failed_by_user user_id since = gets (λ w. length (
    select (λ a. column_is user_id a.user_id && (not a.successful && leb since a.attempted_at))
      w.login_attempts))
