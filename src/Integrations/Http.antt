-- ===== src/Integrations/Http.antt =====
-- The HTTP client (httpx) as a parameter: what becomes of each request.
use buildos_auth_service.Prelude.{ℕ, String, Option, List}
use buildos_auth_service.Integrations.Json.{Json}

pub record HttpRequest : Type 0 where
  pub method : String
  pub url : String
  pub headers : List (String × String)
  -- The JSON body, by field; None is a JSON null.
  pub json : List (String × Option String)

-- `json` is None where `response.json()` raises ValueError.
pub record HttpResponse : Type 0 where
  pub status_code : ℕ
  pub json : Option Json
  pub text : String

-- How a request ends: a response, or an httpx.HTTPError with its text.
pub data Outcome : Type 0 where
  responded : HttpResponse → Outcome
  transport_error : String → Outcome

pub record Wire : Type 0 where
  -- The outcome of a request in an attempt, by the attempt's number from 0.
  pub send : HttpRequest → ℕ → Outcome
  -- `str(value)` of a JSON value, and of a status code.
  pub json_text : Json → String
  pub code_text : ℕ → String
