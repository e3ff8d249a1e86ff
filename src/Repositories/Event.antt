-- ===== src/Repositories/Event.antt =====
-- app/repositories/event_repository.py. The widths of the text columns are not looked at here.
use buildos_auth_service.Prelude.{
  ℕ, String, Bool, false, Option, none, some, List, [], ◌∷◌, ◌++◌, ◌==◌, str_eq, select, sort_desc,
}
use buildos_auth_service.Models.{AuthEvent, SecurityEvent}
use buildos_auth_service.External.{External}
use buildos_auth_service.Database.{Action, gets, draw, modify, ◌>>=◌, ◌>>◌, return}

-- `column == value` on a column that may be NULL.
abbrev pub column_is : ℕ → Option ℕ → Bool
column_is v none = false
column_is v (some u) = u == v

unfoldable pub create_auth_event :
    External
    → (user_id : Option ℕ) (context_type event_type : String)
    → (organization_id membership_id : Option ℕ)
    → (ip_address user_agent metadata_json : Option String) → Action AuthEvent
create_auth_event x user_id context_type event_type organization_id membership_id ip_address
      user_agent metadata_json =
    do
      d ← draw
      now ← gets (λ w. w.clock)
      let event : AuthEvent = record {
        id = x.uuid4 d;
        user_id = user_id;
        context_type = context_type;
        organization_id = organization_id;
        membership_id = membership_id;
        event_type = event_type;
        ip_address = ip_address;
        user_agent = user_agent;
        metadata_json = metadata_json;
        occurred_at = now;
      }
      modify (λ w. record w { auth_events = w.auth_events ++ event ∷ [] })
      return event

unfoldable pub create_security_event :
    External
    → (user_id : Option ℕ) (context_type event_type severity : String)
    → (description : Option String) (organization_id membership_id : Option ℕ)
    → (ip_address user_agent : Option String) → Action SecurityEvent
create_security_event x user_id context_type event_type severity description organization_id
      membership_id ip_address user_agent =
    do
      d ← draw
      now ← gets (λ w. w.clock)
      let event : SecurityEvent = record {
        id = x.uuid4 d;
        user_id = user_id;
        context_type = context_type;
        organization_id = organization_id;
        membership_id = membership_id;
        event_type = event_type;
        severity = severity;
        description = description;
        ip_address = ip_address;
        user_agent = user_agent;
        occurred_at = now;
      }
      modify (λ w. record w { security_events = w.security_events ++ event ∷ [] })
      return event

unfoldable pub get_auth_events_by_user : ℕ → Action (List AuthEvent)
get_auth_events_by_user user_id =
    gets (λ w.
      sort_desc (λ e. e.occurred_at) (select (λ e. column_is user_id e.user_id) w.auth_events))

unfoldable pub get_security_events_by_user : ℕ → Action (List SecurityEvent)
get_security_events_by_user user_id = gets (λ w.
    sort_desc (λ e. e.occurred_at) (select (λ e. column_is user_id e.user_id) w.security_events))

unfoldable pub get_auth_events_by_type : String → Action (List AuthEvent)
get_auth_events_by_type event_type = gets (λ w.
    sort_desc (λ e. e.occurred_at) (select (λ e. str_eq e.event_type event_type) w.auth_events))

unfoldable pub get_security_events_by_type : String → Action (List SecurityEvent)
get_security_events_by_type event_type = gets (λ w.
    sort_desc (λ e. e.occurred_at) (select (λ e. str_eq e.event_type event_type) w.security_events))
