-- ===== src/Integrations/SessionService.antt =====
-- app/integrations/session_service.py. Log messages are left out.
use Prim.Native.String.{◌++◌ as text_append}
use buildos_auth_service.Prelude.{
  ℕ, String, some, List, [], ◌∷◌, leb, strip, is_empty, rstrip_slash, if◌then◌else◌,
}
use buildos_auth_service.Core.Exceptions.{Error, integration}
use buildos_auth_service.External.{External}
use buildos_auth_service.Database.{Result, err}
use buildos_auth_service.Api.Auth.{CreateSession}
use buildos_auth_service.Integrations.Json.{get, as_str, as_dict}
use buildos_auth_service.Integrations.Http.{
  HttpRequest, HttpResponse, Outcome, responded, transport_error, Wire,
}
use buildos_auth_service.Integrations.Headers.{headers}
use buildos_auth_service.Integrations.Answer.{◌>>=◌, require}

abbrev session_url : External → String
session_url x = rstrip_slash x.settings.session_service_url

abbrev invalid_id : Error
invalid_id = integration "Session Service returned an invalid session ID."

-- `response.text.strip() or "Session Service request failed."`
abbrev pub text_detail : String → String
text_detail s = if is_empty (strip s) then "Session Service request failed." else strip s

-- `create_session` after the response.
unfoldable pub session_answer : External → Wire → HttpResponse → Result ℕ
unfolding get
session_answer x wire response =
    if leb 400 response.status_code
    then err (
        integration (
          text_append "Session Service rejected session creation: " (
            text_append (wire.code_text response.status_code)
              (text_append " – " (text_detail response.text)))))
    else (do
      body ← require response.json (integration "Session Service returned invalid JSON.")
      payload ← require (as_dict body) (integration "Session Service returned an invalid response.")
      session_id ← require (as_str (get "session_id" payload)) invalid_id
      require (x.parse_uuid session_id) invalid_id)

abbrev session_outcome : External → Wire → Outcome → Result ℕ
session_outcome x wire (transport_error message) =
    err (integration "Session Service transport failed.")
session_outcome x wire (responded response) = session_answer x wire response

unfoldable pub session_request :
    External → (user_id device_id expires_at : ℕ) → List (String × String) → HttpRequest
session_request x user_id device_id expires_at hs = record {
  method = "POST";
  url = text_append (session_url x) "/api/v1/sessions";
  headers = hs;
  json =
      ("user_id", some (x.uuid_text user_id))
      ∷ ("device_id", some (x.uuid_text device_id))
      ∷ ("expires_at", some (x.isoformat expires_at))
      ∷ [];
}

-- One request, which is not tried again.
unfoldable pub create_session : External → Wire → CreateSession
unfolding session_answer session_request headers
create_session x wire user_id device_id expires_at =
    if is_empty (session_url x)
    then err (integration "SESSION_SERVICE_URL is not configured.")
    else (do
      hs ←
          headers x.lower "SESSION_SERVICE_API_KEY" "SESSION_SERVICE_ID"
            x.settings.session_service_api_key x.settings.session_service_id
            (("Content-Type", "application/json") ∷ [])
      session_outcome x wire (wire.send (session_request x user_id device_id expires_at hs) 0))
