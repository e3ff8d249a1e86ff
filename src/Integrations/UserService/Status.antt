-- ===== src/Integrations/UserService/Status.antt =====
-- `UserService.get_user_status` and `UserService.check_health`, and the calls that the login and
-- password services make.
use Prim.Native.String.{◌++◌ as text_append}
use buildos_auth_service.Prelude.{
  ℕ, String, Bool, false, not, Option, none, some, List, [], ◌∷◌, ◌==◌, text_or, if◌then◌else◌,
}
use buildos_auth_service.Core.Exceptions.{Error, integration, validation, user_deleted}
use buildos_auth_service.External.{External}
use buildos_auth_service.Database.{Result, ok, err}
use buildos_auth_service.Services.UserDirectory.{UserDirectory, UserStatus}
use buildos_auth_service.Integrations.Json.{
  Json, null, str, obj, Fields, end, field, get, as_str, as_bool,
}
use buildos_auth_service.Integrations.Http.{
  HttpRequest, HttpResponse, Outcome, responded, transport_error, Wire,
}
use buildos_auth_service.Integrations.Retry.{Attempt, Retry}
use buildos_auth_service.Integrations.Headers.{headers}
use buildos_auth_service.Integrations.Answer.{
  ◌>>=◌, require, extract_data, parse_error_detail, with_status, attempt_of,
}
use buildos_auth_service.Integrations.UserService.{
  base_url, user_headers, send_with, raise_integration_error, resolve_identifier,
}

abbrev invalid_status : Error
invalid_status = integration "User Service returned an invalid status response."

-- The entries of `verification`, each of them a text.
unfoldable pub parse_entries : Fields → Result (List (String × String))
parse_entries end = ok []
parse_entries (field k v rest) = do
  value ← require (as_str v) invalid_status
  entries ← parse_entries rest
  ok ((k, value) ∷ entries)

unfoldable pub parse_verification : Json → Result (List (String × String))
unfolding parse_entries
parse_verification null = ok []
parse_verification (obj entries) = parse_entries entries
parse_verification _ = err invalid_status

unfoldable pub parse_changed_at : External → Json → Result (Option ℕ)
parse_changed_at x null = ok none
parse_changed_at x (str s) = do at ← require (x.from_isoformat s) invalid_status; ok (some at)
parse_changed_at x _ = err invalid_status

-- The status of a response with status 200.
unfoldable pub user_status : External → HttpResponse → Result UserStatus
unfolding extract_data get parse_verification parse_changed_at
user_status x response = do
  payload ← extract_data response
  user_id ← require (as_str (get "user_id" payload)) invalid_status
  status ← require (as_str (get "status" payload)) invalid_status
  is_active ← require (as_bool (get "is_active" payload)) invalid_status
  verification ← parse_verification (get "verification" payload)
  status_changed_at ← parse_changed_at x (get "status_changed_at" payload)
  parsed_user_id ← require (x.parse_uuid user_id) invalid_status
  ok (record {
    user_id = parsed_user_id;
    status = status;
    is_active = is_active;
    status_changed_at = status_changed_at;
    verification = verification;
  })

-- `get_user_status` after the response.
unfoldable pub status_answer : External → Wire → HttpResponse → Result UserStatus
unfolding user_status parse_error_detail
status_answer x wire response =
    let detail = parse_error_detail wire response in
    if response.status_code == 404
    then err (integration (text_or detail "could not find the user."))
    else if response.status_code == 410
    then err (user_deleted (text_or detail "User account has been deleted."))
    else if response.status_code == 422
    then err (validation (text_or detail "Validation error in status request."))
    else if not (response.status_code == 200)
    then err (
        integration (
          with_status wire "User Service failed to retrieve user status: " response.status_code
            detail))
    else user_status x response

unfoldable pub status_request : External → ℕ → List (String × String) → HttpRequest
status_request x user_id hs = record {
  method = "GET";
  url =
      text_append (base_url x)
        (text_append "/internal/v1/users/" (text_append (x.uuid_text user_id) "/status"));
  headers = hs;
  json = [];
}

-- One attempt of `get_user_status`.
unfoldable pub status_attempt : External → Wire → ℕ → ℕ → Attempt UserStatus
unfolding status_answer status_request attempt_of headers
status_attempt x wire user_id k =
    send_with wire (status_request x user_id) (status_answer x wire) k (user_headers x [])

unfoldable pub get_user_status : External → Wire → Retry → ℕ → Result UserStatus
unfolding status_attempt
get_user_status x wire retry user_id =
    retry UserStatus 3 raise_integration_error (status_attempt x wire user_id)

-- The User Service as the services of the application use it.
abbrev pub user_directory : External → Wire → Retry → UserDirectory
user_directory x wire retry = record {
  resolve_identifier = resolve_identifier x wire retry;
  get_user_status = get_user_status x wire retry;
}

abbrev is_healthy : Outcome → Bool
is_healthy (responded response) = response.status_code == 200
is_healthy (transport_error message) = false

-- `check_health`: the headers may raise.
unfoldable pub check_health : External → Wire → Result Bool
unfolding headers
check_health x wire = do
  hs ← user_headers x []
  ok (
      is_healthy (
        wire.send
          (record {
            method = "GET";
            url = text_append (base_url x) "/health";
            headers = hs;
            json = [];
          })
          0))
