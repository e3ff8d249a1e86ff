-- ===== src/Services/UserDirectory.antt =====
-- What the login and password services ask of the User Service client
-- (app/integrations/user_service.py): each call returns or raises within one request.
use buildos_auth_service.Prelude.{ℕ, String, Bool, Option, List}
use buildos_auth_service.Database.{Result}

pub record UserStatus : Type 0 where
  pub user_id : ℕ
  pub status : String
  pub is_active : Bool
  pub status_changed_at : Option ℕ
  pub verification : List (String × String)

pub record UserDirectory : Type 0 where
  pub resolve_identifier : String → Result (Option ℕ)
  pub get_user_status : ℕ → Result UserStatus
