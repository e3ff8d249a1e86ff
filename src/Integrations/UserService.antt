-- ===== src/Integrations/UserService.antt =====
-- app/integrations/user_service.py. Log messages are left out, and an HTTP client's timeouts are its
-- transport errors. `retry` is tenacity's.
pub mod Create
pub mod Status
pub mod Errors
pub mod Attempts
pub mod RoundTrip
use Prim.Native.String.{◌++◌ as text_append}
use text.Mathlib.Text.{starts_with}
use buildos_auth_service.Prelude.{
  ℕ, String, Bool, not, ◌&&◌, ◌||◌, Option, none, some, List, [], ◌∷◌, ◌==◌, strip, is_empty,
  remove_char, contains_char, every_char, rstrip_slash, text_or, if◌then◌else◌,
}
use buildos_auth_service.Core.Exceptions.{Error, integration, validation}
use buildos_auth_service.External.{External}
use buildos_auth_service.Database.{Result, ok, err}
use buildos_auth_service.Integrations.Json.{get, as_str}
use buildos_auth_service.Integrations.Http.{HttpRequest, HttpResponse, Wire}
use buildos_auth_service.Integrations.Retry.{Attempt, final, Retry}
use buildos_auth_service.Integrations.Headers.{headers}
use buildos_auth_service.Integrations.Answer.{
  ◌>>=◌, ◌>>◌, require, extract_data, parse_error_detail, with_status, attempt_of,
}

-- `_detect_identifier_type`
abbrev pub compact : String → String
compact value = remove_char b')' (remove_char b'(' (remove_char b'-' (remove_char b' ' value)))

-- `str.isdigit`
abbrev pub is_digits : (ℕ → Bool) → String → Bool
is_digits is_digit s = not (is_empty s) && every_char is_digit s

unfoldable pub detect_identifier_type : External → String → String
detect_identifier_type x identifier =
    let value = strip identifier in
    if contains_char b'@' value
    then "email"
    else if starts_with value "+" || is_digits x.is_digit (compact value)
    then "phone"
    else "username"

-- `_raise_integration_error`
abbrev pub raise_integration_error : String → Error
raise_integration_error message =
    integration (text_append "User Service failed after retries: " message)

abbrev pub base_url : External → String
base_url x = rstrip_slash x.settings.user_service_url

-- `_headers`, and the headers that a call adds.
abbrev pub user_headers : External → List (String × String) → Result (List (String × String))
user_headers x rest =
    headers x.lower "USER_SERVICE_API_KEY" "USER_SERVICE_ID" x.settings.user_service_api_key
      x.settings.user_service_id rest

-- The attempt that sends a request with the headers, if they can be built.
abbrev pub send_with :
    {A : Type 0}
    → Wire
    → (List (String × String) → HttpRequest)
    → (HttpResponse → Result A)
    → ℕ
    → Result (List (String × String))
    → Attempt A
send_with wire request answer k (err e) = final (err e)
send_with wire request answer k (ok hs) = attempt_of wire answer (wire.send (request hs) k)

abbrev invalid_identity : Error
invalid_identity = integration "User Service returned an invalid identity response."

-- `resolve_identifier` after the response.
unfoldable pub resolve_answer : External → Wire → HttpResponse → Result (Option ℕ)
unfolding parse_error_detail extract_data
resolve_answer x wire response =
    let detail = parse_error_detail wire response in
    if response.status_code == 404 || response.status_code == 410
    then ok none
    else if response.status_code == 422
    then err (validation (text_or detail "Validation error in identifier resolution."))
    else if not (response.status_code == 200)
    then err (
        integration (
          with_status wire "User Service failed to resolve the user identity: " response.status_code
            detail))
    else (do
      payload ← extract_data response
      user_id ← require (as_str (get "user_id" payload)) invalid_identity
      id ← require (x.parse_uuid user_id) invalid_identity
      ok (some id))

unfoldable pub resolve_request : External → String → List (String × String) → HttpRequest
unfolding detect_identifier_type
resolve_request x identifier hs = record {
  method = "POST";
  url = text_append (base_url x) "/internal/v1/users/resolve";
  headers = hs;
  json =
      ("identifier", some identifier) ∷ ("type", some (detect_identifier_type x identifier)) ∷ [];
}

-- One attempt of `resolve_identifier`.
unfoldable pub resolve_attempt : External → Wire → String → ℕ → Attempt (Option ℕ)
unfolding resolve_answer resolve_request attempt_of headers
resolve_attempt x wire identifier k =
    let normalized = strip identifier in
    if is_empty normalized
    then final (ok none)
    else send_with wire (resolve_request x normalized) (resolve_answer x wire) k (user_headers x [])

unfoldable pub resolve_identifier : External → Wire → Retry → String → Result (Option ℕ)
unfolding resolve_attempt
resolve_identifier x wire retry identifier =
    retry (Option ℕ) 3 raise_integration_error (resolve_attempt x wire identifier)
