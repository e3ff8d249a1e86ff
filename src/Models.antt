-- ===== src/Models.antt =====
-- app/models: a row of each table as a record, its columns in the order of the source. A UUID is a
-- natural number, a time is in microseconds. The widths of text columns are in Migrations.Tables.
use buildos_auth_service.Prelude.{ℕ, String, Bool, Option}

-- app/models/auth_credential.py
pub record AuthCredential : Type 0 where
  pub id : ℕ
  pub user_id : ℕ
  pub password_hash : String
  pub is_active : Bool
  pub is_locked : Bool
  pub failed_login_count : ℕ
  pub locked_until : Option ℕ
  pub password_changed_at : ℕ
  pub last_login_at : Option ℕ
  pub created_at : ℕ
  pub updated_at : ℕ

-- app/models/auth_event.py
pub record AuthEvent : Type 0 where
  pub id : ℕ
  pub user_id : Option ℕ
  pub context_type : String
  pub organization_id : Option ℕ
  pub membership_id : Option ℕ
  pub event_type : String
  pub ip_address : Option String
  pub user_agent : Option String
  pub metadata_json : Option String
  pub occurred_at : ℕ

-- app/models/security_event.py
pub record SecurityEvent : Type 0 where
  pub id : ℕ
  pub user_id : Option ℕ
  pub context_type : String
  pub organization_id : Option ℕ
  pub membership_id : Option ℕ
  pub event_type : String
  pub severity : String
  pub description : Option String
  pub ip_address : Option String
  pub user_agent : Option String
  pub occurred_at : ℕ

-- app/models/login_attempt.py
pub record LoginAttempt : Type 0 where
  pub id : ℕ
  pub user_id : Option ℕ
  pub identifier : String
  pub context_type : String
  pub organization_id : Option ℕ
  pub membership_id : Option ℕ
  pub ip_address : Option String
  pub user_agent : Option String
  pub successful : Bool
  pub failure_reason : Option String
  pub attempted_at : ℕ

-- app/models/password_reset.py
pub record PasswordReset : Type 0 where
  pub id : ℕ
  pub user_id : ℕ
  pub token_hash : String
  pub expires_at : ℕ
  pub used_at : Option ℕ
  pub is_used : Bool
  pub created_at : ℕ
  pub requested_ip : Option String

-- app/models/refresh_token.py
pub record RefreshToken : Type 0 where
  pub id : ℕ
  pub user_id : ℕ
  pub context_type : String
  pub organization_id : Option ℕ
  pub membership_id : Option ℕ
  pub token_hash : String
  pub expires_at : ℕ
  pub revoked_at : Option ℕ
  pub is_revoked : Bool
  pub created_at : ℕ
  pub last_used_at : Option ℕ
  pub replaced_by_token_id : Option ℕ
