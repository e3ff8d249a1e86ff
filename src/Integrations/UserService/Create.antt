-- ===== src/Integrations/UserService/Create.antt =====
-- `UserService.create_user`.
use Prim.Native.String.{◌++◌ as text_append}
use buildos_auth_service.Prelude.{
  ℕ, String, Bool, false, not, ◌||◌, Option, none, some, List, [], ◌∷◌, ◌==◌, str_eq, strip,
  is_empty, contains, text_or, if◌then◌else◌,
}
use buildos_auth_service.Core.Exceptions.{
  Error, integration, validation, user_deleted, user_already_exists, user_not_found,
  idempotency_conflict,
}
use buildos_auth_service.External.{External}
use buildos_auth_service.Database.{Result, ok, err}
use buildos_auth_service.Services.Registration.{UserFields, CreatedUser}
use buildos_auth_service.Integrations.Json.{Json, get, as_str}
use buildos_auth_service.Integrations.Http.{HttpRequest, HttpResponse, Wire}
use buildos_auth_service.Integrations.Retry.{Attempt, final, Retry}
use buildos_auth_service.Integrations.Headers.{headers}
use buildos_auth_service.Integrations.Answer.{
  ◌>>=◌, require, extract_data, parse_error_payload, parse_error_detail, with_status, attempt_of,
}
use buildos_auth_service.Integrations.UserService.{
  base_url, user_headers, send_with, raise_integration_error,
}

-- `value is not None and value.strip()`
abbrev pub is_given : Option String → Bool
is_given none = false
is_given (some s) = not (is_empty (strip s))

abbrev invalid_creation : Error
invalid_creation = integration "User Service returned an invalid user creation response."

abbrev pub has_code : String → Json → Bool
has_code code v = elim (as_str v) [ none ↦ false | some s ↦ str_eq s code ]

-- `error_detail is not None and "idempotency" in error_detail.lower()`
abbrev pub is_about_idempotency : External → Option String → Bool
is_about_idempotency x none = false
is_about_idempotency x (some detail) = contains (x.lower detail) "idempotency"

-- The message for an identity that is taken.
unfoldable pub taken_message : UserFields → String
taken_message fields =
    if is_given fields.email
    then "An account with this email already exists."
    else if is_given fields.phone
    then "An account with this phone number already exists."
    else if is_given fields.username
    then "An account with this username already exists."
    else "An account with this identity already exists."

-- The exception for a response with status 409.
unfoldable pub conflict_error : External → Wire → UserFields → HttpResponse → Error
unfolding parse_error_payload parse_error_detail taken_message
conflict_error x wire fields response =
    let detail = parse_error_detail wire response in
    let code = get "code" (parse_error_payload response) in
    if has_code "IDENTITY_ALREADY_EXISTS" code
    then user_already_exists (taken_message fields)
    else if has_code "IDEMPOTENCY_CONFLICT" code
    then idempotency_conflict (text_or detail "Idempotency key was used with different data.")
    else if is_about_idempotency x detail
    then idempotency_conflict (text_or detail "Idempotency key was used with different data.")
    else user_already_exists (text_or detail "An account with this identity already exists.")

-- The user of a response with status 200 or 201.
unfoldable pub created_user : External → HttpResponse → Result CreatedUser
unfolding extract_data get
created_user x response = do
  payload ← extract_data response
  user_id ← require (as_str (get "user_id" payload)) invalid_creation
  public_id ← require (as_str (get "public_id" payload)) invalid_creation
  user_status ← require (as_str (get "status" payload)) invalid_creation
  created_at ← require (as_str (get "created_at" payload)) invalid_creation
  parsed_user_id ← require (x.parse_uuid user_id) invalid_creation
  parsed_created_at ← require (x.from_isoformat created_at) invalid_creation
  ok (record {
    user_id = parsed_user_id;
    public_id = public_id;
    status = user_status;
    created_at = parsed_created_at;
  })

-- `create_user` after the response.
unfoldable pub create_answer : External → Wire → UserFields → HttpResponse → Result CreatedUser
unfolding conflict_error created_user parse_error_detail
create_answer x wire fields response =
    let detail = parse_error_detail wire response in
    if response.status_code == 409
    then err (conflict_error x wire fields response)
    else if response.status_code == 422
    then err (validation (text_or detail "Validation error in user creation."))
    else if response.status_code == 404
    then err (user_not_found (text_or detail "User not found."))
    else if response.status_code == 410
    then err (user_deleted (text_or detail "User account has been deleted."))
    else if not (response.status_code == 200 || response.status_code == 201)
    then err (
        integration
          (with_status wire "User Service failed to create the user: " response.status_code detail))
    else created_user x response

unfoldable pub create_request : External → UserFields → List (String × String) → HttpRequest
create_request x fields hs = record {
  method = "POST";
  url = text_append (base_url x) "/internal/v1/users/create";
  headers = hs;
  json =
      ("email", fields.email)
      ∷ ("phone", fields.phone)
      ∷ ("username", fields.username)
      ∷ ("first_name", fields.first_name)
      ∷ ("last_name", fields.last_name)
      ∷ ("display_name", fields.display_name)
      ∷ ("country", fields.country)
      ∷ ("timezone", some fields.timezone)
      ∷ ("language", some fields.language)
      ∷ [];
}

-- One attempt of `create_user`.
unfoldable pub create_attempt :
    External → Wire → (idempotency_key : String) (fields : UserFields) → ℕ → Attempt CreatedUser
unfolding create_answer create_request attempt_of headers
create_attempt x wire idempotency_key fields k =
    let key = strip idempotency_key in
    if is_empty key
    then final (err (integration "User creation requires an idempotency key."))
    else if not (is_given fields.email || is_given fields.phone || is_given fields.username)
    then final (err (validation "User creation requires at least one identity."))
    else send_with wire (create_request x fields) (create_answer x wire fields) k
        (user_headers x (("Content-Type", "application/json") ∷ ("Idempotency-Key", key) ∷ []))

unfoldable pub create_user :
    External → Wire → Retry → (idempotency_key : String) (fields : UserFields) → Result CreatedUser
unfolding create_attempt
create_user x wire retry idempotency_key fields =
    retry CreatedUser 3 raise_integration_error (create_attempt x wire idempotency_key fields)
