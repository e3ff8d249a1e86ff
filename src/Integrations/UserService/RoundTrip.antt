-- ===== src/Integrations/UserService/RoundTrip.antt =====
-- A status response as the User Service writes it, and as its client reads it.
use buildos_auth_service.Prelude.{
  ℕ, ◌≡◌, refl, ap, String, Bool, true, false, Option, none, some, List, [], ◌∷◌,
}
use buildos_auth_service.External.{External}
use buildos_auth_service.Database.{ok}
use buildos_auth_service.Services.UserDirectory.{UserStatus}
use buildos_auth_service.Integrations.Json.{Json, null, bool, str, obj, Fields, end, field, get}
use buildos_auth_service.Integrations.Http.{HttpResponse, Wire, responded}
use buildos_auth_service.Integrations.Retry.{final}
use buildos_auth_service.Integrations.Answer.{is_success, envelope_data, extract_data, attempt_of}
use buildos_auth_service.Integrations.UserService.Status.{
  parse_entries, parse_verification, parse_changed_at, user_status, status_answer,
}

abbrev pub entries_json : List (String × String) → Fields
entries_json [] = end
entries_json ((k, v) ∷ rest) = field k (str v) (entries_json rest)

abbrev pub time_json : External → Option ℕ → Json
time_json x none = null
time_json x (some t) = str (x.isoformat t)

abbrev pub status_json : External → UserStatus → Fields
status_json x s = field "user_id" (str (x.uuid_text s.user_id)) (
    field "status" (str s.status) (
      field "is_active" (bool s.is_active) (
        field "verification" (obj (entries_json s.verification))
          (field "status_changed_at" (time_json x s.status_changed_at) end))))

-- The body with the envelope of the API or, by the earlier contract, without one.
abbrev pub body_json : (enveloped : Bool) → Fields → Json
body_json false fields = obj fields
body_json true fields = obj (field "success" (bool true) (field "data" (obj fields) end))

abbrev pub status_response : External → (enveloped : Bool) → UserStatus → String → HttpResponse
status_response x enveloped s body = record {
  status_code = 200;
  json = some (body_json enveloped (status_json x s));
  text = body;
}

parse_entries-entries_json :
    (entries : List (String × String)) → parse_entries (entries_json entries) ≡ ok entries
unfolding parse_entries
parse_entries-entries_json [] = refl
parse_entries-entries_json ((k, v) ∷ rest) = rw (parse_entries-entries_json rest) refl

module _ (x : External) (uuid_lem : (id : ℕ) → x.parse_uuid (x.uuid_text id) ≡ some id)
    (time_lem : (t : ℕ) → x.from_isoformat (x.isoformat t) ≡ some t) where
  parse_changed_at-time_json : (t : Option ℕ) → parse_changed_at x (time_json x t) ≡ ok t
  unfolding parse_changed_at
  parse_changed_at-time_json none = refl
  parse_changed_at-time_json (some t) = rw (time_lem t) refl

  user_status-status_response :
      (enveloped : Bool) (s : UserStatus) (body : String)
      → user_status x (status_response x enveloped s body) ≡ ok s
  unfolding user_status extract_data get is_success envelope_data parse_verification
  user_status-status_response false s body =
      rw
        (
          parse_entries-entries_json s.verification,
          parse_changed_at-time_json s.status_changed_at,
          uuid_lem s.user_id,
        )
        refl
  user_status-status_response true s body =
      rw
        (
          parse_entries-entries_json s.verification,
          parse_changed_at-time_json s.status_changed_at,
          uuid_lem s.user_id,
        )
        refl

  -- If the text of a UUID and of a time read back as the UUID and the time, a user's status that is
  -- sent as JSON with status 200 ends the attempt with that same status, with and without the envelope.
  pub attempt_of-status_response :
      (wire : Wire) (enveloped : Bool) (s : UserStatus) (body : String)
      → attempt_of wire (status_answer x wire) (responded (status_response x enveloped s body))
        ≡ final (ok s)
  unfolding attempt_of status_answer
  attempt_of-status_response wire enveloped s body =
      ap final (user_status-status_response enveloped s body)
