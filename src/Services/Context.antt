-- ===== src/Services/Context.antt =====
-- The context of a request: `AuthenticationContext` of app/services/authentication_service.py and
-- `PasswordContext` of app/services/password_service.py have the same fields and defaults.
use buildos_auth_service.Prelude.{ℕ, String, Option, none}
use buildos_auth_service.Core.Context

pub record RequestContext : Type 0 where
  pub context_type : String
  pub organization_id : Option ℕ
  pub membership_id : Option ℕ
  pub ip_address : Option String
  pub user_agent : Option String

-- The defaults, with the two fields that every endpoint fills.
abbrev pub personal_context : Option String → Option String → RequestContext
personal_context ip_address user_agent = record {
  context_type = Context.personal;
  organization_id = none;
  membership_id = none;
  ip_address = ip_address;
  user_agent = user_agent;
}
