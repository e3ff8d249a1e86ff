-- ===== src/Integrations/Answer.antt =====
-- What the User Service client reads from a response, in each of its calls.
use Prim.Native.String.{◌++◌ as text_append}
use buildos_auth_service.Prelude.{
  ℕ, String, Bool, false, ◌||◌, Option, none, some, ◌==◌, leb, if◌then◌else◌,
}
use buildos_auth_service.Core.Exceptions.{Error, integration}
use buildos_auth_service.Database.{Result, ok, err}
use buildos_auth_service.Integrations.Json.{
  Json, null, str, obj, Fields, get, end, as_dict, as_bool,
}
use buildos_auth_service.Integrations.Http.{HttpResponse, Outcome, responded, transport_error, Wire}
use buildos_auth_service.Integrations.Retry.{Attempt, final, retryable}

-- A step that may raise, and the next one.
infixl 5 ◌>>=◌ ◌>>◌
abbrev pub ◌>>=◌ : {A B : Type 0} → Result A → (A → Result B) → Result B
ok a >>= f = f a
err e >>= f = err e

abbrev pub ◌>>◌ : {A B : Type 0} → Result A → Result B → Result B
m >> k = m >>= λ _. k

-- `raise error` where the value is missing.
abbrev pub require : {A : Type 0} → Option A → Error → Result A
require none e = err e
require (some a) e = ok a

-- `_extract_data`
unfoldable pub is_success : Fields → Bool
unfolding get
is_success payload = elim (as_bool (get "success" payload)) [ none ↦ false | some b ↦ b ]

-- The envelope, or the earlier contract without one.
unfoldable pub envelope_data : Fields → Result Fields
unfolding is_success
envelope_data payload =
    if is_success payload
    then require (as_dict (get "data" payload))
        (integration "User Service returned an invalid data payload.")
    else ok payload

unfoldable pub extract_data : HttpResponse → Result Fields
unfolding envelope_data
extract_data response = do
  body ← require response.json (integration "User Service returned invalid JSON.")
  payload ← require (as_dict body) (integration "User Service returned an invalid response.")
  envelope_data payload

abbrev pub detail_or_payload : Fields → Option Fields → Fields
detail_or_payload payload none = payload
detail_or_payload payload (some detail) = detail

abbrev pub error_payload : Option Json → Fields
error_payload (some (obj payload)) = detail_or_payload payload (as_dict (get "detail" payload))
error_payload _ = end

-- `_parse_error_payload`
unfoldable pub parse_error_payload : HttpResponse → Fields
unfolding get
parse_error_payload response = error_payload response.json

abbrev pub message_text : Json → Option String
message_text (str message) = some message
message_text _ = none

abbrev pub detail_text : Wire → Json → Option String
detail_text wire null = none
detail_text wire (str detail) = some detail
detail_text wire (obj detail) = message_text (get "message" detail)
detail_text wire other = some (wire.json_text other)

abbrev pub error_detail : Wire → Option Json → Option String
error_detail wire (some (obj payload)) = detail_text wire (get "detail" payload)
error_detail wire _ = none

-- `_parse_error_detail`
unfoldable pub parse_error_detail : Wire → HttpResponse → Option String
unfolding get
parse_error_detail wire response = error_detail wire response.json

-- `f"{response.status_code} – {error_detail}"` after a text.
abbrev pub optional_text : Option String → String
optional_text none = "None"
optional_text (some s) = s

abbrev pub with_status : Wire → String → ℕ → Option String → String
with_status wire text status_code detail =
    text_append text
      (text_append (wire.code_text status_code) (text_append " – " (optional_text detail)))

-- The server's errors and its rate limit are tried again.
abbrev pub is_retryable_code : ℕ → Bool
is_retryable_code status_code = leb 500 status_code || status_code == 429

-- The part of each call up to the retryable statuses, around the rest.
unfoldable pub attempt_of : {A : Type 0} → Wire → (HttpResponse → Result A) → Outcome → Attempt A
attempt_of wire answer (transport_error message) = retryable message
attempt_of wire answer (responded response) =
    if is_retryable_code response.status_code
    then retryable
        (text_append "Retryable error from User Service: " (wire.code_text response.status_code))
    else final (answer response)
