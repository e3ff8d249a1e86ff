-- ===== src/Tests/Clients.antt =====
-- The theorems on the HTTP clients and on requests over them, at the sample.
use buildos_auth_service.Prelude.{
  is_space, leb, if◌then◌else◌, ℕ, ◌<◌, ◌≡◌, refl, true, none, some, arith, strip,
}
use buildos_auth_service.Core.TokenType
use buildos_auth_service.Core.Exceptions.{http}
use buildos_auth_service.Database.{err, ok}
use buildos_auth_service.Services.Registration.{UserFields}
use buildos_auth_service.Api.Auth.{LoginRequest, login}
use buildos_auth_service.Api.Auth.Rollback.{SameTables}
use buildos_auth_service.Api.Password.{request_password_reset}
use buildos_auth_service.Integrations.Json.{get}
use buildos_auth_service.Integrations.Headers.{headers}
use buildos_auth_service.Integrations.Http.{HttpRequest, Outcome, responded, Wire}
use buildos_auth_service.Integrations.Retry.{final}
use buildos_auth_service.Integrations.Answer.{attempt_of, extract_data, envelope_data, is_success}
use buildos_auth_service.Integrations.UserService.{
  resolve_identifier, resolve_attempt, resolve_answer,
}
use buildos_auth_service.Integrations.UserService.Status.{
  get_user_status, user_directory, status_answer,
}
use buildos_auth_service.Integrations.UserService.Attempts.{
  user_directory-three, resolve_identifier-named, WasNamed,
}
use buildos_auth_service.Integrations.UserService.RoundTrip.{
  status_response, attempt_of-status_response,
}
use buildos_auth_service.Integrations.SessionService.{create_session}
use buildos_auth_service.System.Outage.{
  IsIntegrationFailure, login-down, request_password_reset-down,
}
use buildos_auth_service.Tests.Sample.{count_strokes, sample, sample-IsLawful, stored, ann_status}
use buildos_auth_service.Tests.Retries.{
  attempts_from, repeated, repeated-IsRetry, answering, user_seven, down,
}

abbrev ann_login : LoginRequest
ann_login = record { identifier = " ann "; password = "right"; device_id = none }

abbrev known : Wire
known = answering user_seven

abbrev failing : Wire
failing = answering down

-- The lost answer is followed by one that names user 7.
resolved_seven : resolve_identifier (sample TokenType.refresh) known repeated "ann" ≡ ok (some 7)
unfolding resolve_identifier resolve_attempt resolve_answer extract_data envelope_data is_success
    get attempt_of headers attempts_from user_seven strip is_space count_strokes
resolved_seven = refl

resolve_identifier-named_example : WasNamed (sample TokenType.refresh) known "ann" 7
resolve_identifier-named_example =
    resolve_identifier-named (sample TokenType.refresh) known repeated repeated-IsRetry "ann" 7
      resolved_seven

abbrev fields : UserFields
fields = record {
  email = some "ann@example.org";
  phone = none;
  username = none;
  first_name = none;
  last_name = none;
  display_name = none;
  country = none;
  timezone = "Africa/Lagos";
  language = "en";
}

attempt_of-status_response_example :
    attempt_of known
      (status_answer (sample TokenType.refresh) known)
      (responded (status_response (sample TokenType.refresh) true ann_status ""))
    ≡ final (ok ann_status)
attempt_of-status_response_example =
    attempt_of-status_response (sample TokenType.refresh)
      (sample-IsLawful TokenType.refresh).parse_uuid-uuid_text
      (sample-IsLawful TokenType.refresh).parse_uuid-uuid_text known true ann_status ""

-- Another wire, which fails from the fourth attempt on.
unfoldable later : HttpRequest → ℕ → Outcome
later request k = if leb 3 k then down request k else user_seven request k

later-agrees : (request : HttpRequest) (k : ℕ) → k < 3 → known.send request k ≡ later request k
unfolding later
later-agrees request k below = ground (arith, below)

user_directory-three_example :
    (resolve_identifier (sample TokenType.refresh) known repeated "ann"
      ≡ resolve_identifier (sample TokenType.refresh) (answering later) repeated "ann")
    × (get_user_status (sample TokenType.refresh) known repeated 7
        ≡ get_user_status (sample TokenType.refresh) (answering later) repeated 7)
user_directory-three_example =
    user_directory-three (sample TokenType.refresh) known later repeated repeated-IsRetry "ann" 7
      later-agrees

login-down_example :
    ((login
        (sample TokenType.refresh)
        (user_directory (sample TokenType.refresh) failing repeated)
        (create_session (sample TokenType.refresh) failing)
        ann_login
        none
        none
        stored).0
      ≡ err (http 503 "User identity service is unavailable."))
    × SameTables stored
        (login
          (sample TokenType.refresh)
          (user_directory (sample TokenType.refresh) failing repeated)
          (create_session (sample TokenType.refresh) failing)
          ann_login
          none
          none
          stored).1
unfolding strip is_space
login-down_example =
    login-down (sample TokenType.refresh) failing (λ request k below. refl) repeated
      repeated-IsRetry (create_session (sample TokenType.refresh) failing) ann_login none none
      stored refl

request_password_reset-down_example :
    IsIntegrationFailure
      (request_password_reset
        (sample TokenType.refresh)
        (user_directory (sample TokenType.refresh) failing repeated)
        "ann"
        none
        stored).0
unfolding strip is_space
request_password_reset-down_example =
    request_password_reset-down (sample TokenType.refresh) failing (λ request k below. refl)
      repeated repeated-IsRetry "ann" none stored refl
