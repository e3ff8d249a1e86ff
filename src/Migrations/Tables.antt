-- ===== src/Migrations/Tables.antt =====
-- The revision d31a87b30854: its tables, `upgrade` and `downgrade`.
use buildos_auth_service.Prelude.{true, false, some, none, List, [], ◌∷◌}
use buildos_auth_service.Migrations.{
  uuid, long_text, boolean, integer, timestamp, varchar, sql, literal, column, Table, Creation,
  create_table, create_index, Removal, drop_index, drop_table,
}

abbrev pub auth_credentials : Table
auth_credentials = record {
  name = "auth_credentials";
  columns =
      column "id" uuid none false
      ∷ column "user_id" uuid none false
      ∷ column "password_hash" long_text none false
      ∷ column "is_active" boolean (some (sql "true")) false
      ∷ column "is_locked" boolean (some (sql "false")) false
      ∷ column "failed_login_count" integer (some (sql "0")) false
      ∷ column "locked_until" timestamp none true
      ∷ column "password_changed_at" timestamp (some (sql "CURRENT_TIMESTAMP")) false
      ∷ column "last_login_at" timestamp none true
      ∷ column "created_at" timestamp (some (sql "CURRENT_TIMESTAMP")) false
      ∷ column "updated_at" timestamp (some (sql "CURRENT_TIMESTAMP")) false
      ∷ [];
}

abbrev pub auth_events : Table
auth_events = record {
  name = "auth_events";
  columns =
      column "id" uuid none false
      ∷ column "user_id" uuid none true
      ∷ column "context_type" (varchar 30) (some (literal "PERSONAL")) false
      ∷ column "organization_id" uuid none true
      ∷ column "membership_id" uuid none true
      ∷ column "event_type" (varchar 100) none false
      ∷ column "ip_address" (varchar 45) none true
      ∷ column "user_agent" (varchar 1000) none true
      ∷ column "metadata_json" long_text none true
      ∷ column "occurred_at" timestamp (some (sql "now()")) false
      ∷ [];
}

abbrev pub login_attempts : Table
login_attempts = record {
  name = "login_attempts";
  columns =
      column "id" uuid none false
      ∷ column "user_id" uuid none true
      ∷ column "identifier" (varchar 255) none false
      ∷ column "context_type" (varchar 30) (some (literal "PERSONAL")) false
      ∷ column "organization_id" uuid none true
      ∷ column "membership_id" uuid none true
      ∷ column "ip_address" (varchar 45) none true
      ∷ column "user_agent" (varchar 1000) none true
      ∷ column "successful" boolean (some (literal "false")) false
      ∷ column "failure_reason" (varchar 255) none true
      ∷ column "attempted_at" timestamp (some (sql "now()")) false
      ∷ [];
}

abbrev pub password_resets : Table
password_resets = record {
  name = "password_resets";
  columns =
      column "id" uuid none false
      ∷ column "user_id" uuid none false
      ∷ column "token_hash" long_text none false
      ∷ column "expires_at" timestamp none false
      ∷ column "used_at" timestamp none true
      ∷ column "is_used" boolean (some (literal "false")) false
      ∷ column "created_at" timestamp (some (sql "now()")) false
      ∷ column "requested_ip" long_text none true
      ∷ [];
}

abbrev pub refresh_tokens : Table
refresh_tokens = record {
  name = "refresh_tokens";
  columns =
      column "id" uuid none false
      ∷ column "user_id" uuid none false
      ∷ column "context_type" (varchar 30) (some (literal "PERSONAL")) false
      ∷ column "organization_id" uuid none true
      ∷ column "membership_id" uuid none true
      ∷ column "token_hash" long_text none false
      ∷ column "expires_at" timestamp none false
      ∷ column "revoked_at" timestamp none true
      ∷ column "is_revoked" boolean (some (literal "false")) false
      ∷ column "created_at" timestamp (some (sql "now()")) false
      ∷ column "last_used_at" timestamp none true
      ∷ column "replaced_by_token_id" uuid none true
      ∷ [];
}

abbrev pub security_events : Table
security_events = record {
  name = "security_events";
  columns =
      column "id" uuid none false
      ∷ column "user_id" uuid none true
      ∷ column "context_type" (varchar 30) (some (literal "PERSONAL")) false
      ∷ column "organization_id" uuid none true
      ∷ column "membership_id" uuid none true
      ∷ column "event_type" (varchar 100) none false
      ∷ column "severity" (varchar 20) (some (literal "info")) false
      ∷ column "description" long_text none true
      ∷ column "ip_address" (varchar 45) none true
      ∷ column "user_agent" (varchar 1000) none true
      ∷ column "occurred_at" timestamp (some (sql "now()")) false
      ∷ [];
}

abbrev pub upgrade : List Creation
upgrade =
    create_table auth_credentials
    ∷ create_index "ix_auth_credentials_user_id" "auth_credentials" "user_id" true
    ∷ create_table auth_events
    ∷ create_index "ix_auth_events_context_type" "auth_events" "context_type" false
    ∷ create_index "ix_auth_events_event_type" "auth_events" "event_type" false
    ∷ create_index "ix_auth_events_membership_id" "auth_events" "membership_id" false
    ∷ create_index "ix_auth_events_organization_id" "auth_events" "organization_id" false
    ∷ create_index "ix_auth_events_user_id" "auth_events" "user_id" false
    ∷ create_table login_attempts
    ∷ create_index "ix_login_attempts_context_type" "login_attempts" "context_type" false
    ∷ create_index "ix_login_attempts_identifier" "login_attempts" "identifier" false
    ∷ create_index "ix_login_attempts_membership_id" "login_attempts" "membership_id" false
    ∷ create_index "ix_login_attempts_organization_id" "login_attempts" "organization_id" false
    ∷ create_index "ix_login_attempts_user_id" "login_attempts" "user_id" false
    ∷ create_table password_resets
    ∷ create_index "ix_password_resets_expires_at" "password_resets" "expires_at" false
    ∷ create_index "ix_password_resets_is_used" "password_resets" "is_used" false
    ∷ create_index "ix_password_resets_token_hash" "password_resets" "token_hash" true
    ∷ create_index "ix_password_resets_user_id" "password_resets" "user_id" false
    ∷ create_table refresh_tokens
    ∷ create_index "ix_refresh_tokens_context_type" "refresh_tokens" "context_type" false
    ∷ create_index "ix_refresh_tokens_expires_at" "refresh_tokens" "expires_at" false
    ∷ create_index "ix_refresh_tokens_is_revoked" "refresh_tokens" "is_revoked" false
    ∷ create_index "ix_refresh_tokens_membership_id" "refresh_tokens" "membership_id" false
    ∷ create_index "ix_refresh_tokens_organization_id" "refresh_tokens" "organization_id" false
    ∷ create_index "ix_refresh_tokens_token_hash" "refresh_tokens" "token_hash" true
    ∷ create_index "ix_refresh_tokens_user_id" "refresh_tokens" "user_id" false
    ∷ create_table security_events
    ∷ create_index "ix_security_events_context_type" "security_events" "context_type" false
    ∷ create_index "ix_security_events_event_type" "security_events" "event_type" false
    ∷ create_index "ix_security_events_membership_id" "security_events" "membership_id" false
    ∷ create_index "ix_security_events_organization_id" "security_events" "organization_id" false
    ∷ create_index "ix_security_events_user_id" "security_events" "user_id" false
    ∷ []

abbrev pub downgrade : List Removal
downgrade =
    drop_index "ix_security_events_user_id" "security_events"
    ∷ drop_index "ix_security_events_organization_id" "security_events"
    ∷ drop_index "ix_security_events_membership_id" "security_events"
    ∷ drop_index "ix_security_events_event_type" "security_events"
    ∷ drop_index "ix_security_events_context_type" "security_events"
    ∷ drop_table "security_events"
    ∷ drop_index "ix_refresh_tokens_user_id" "refresh_tokens"
    ∷ drop_index "ix_refresh_tokens_token_hash" "refresh_tokens"
    ∷ drop_index "ix_refresh_tokens_organization_id" "refresh_tokens"
    ∷ drop_index "ix_refresh_tokens_membership_id" "refresh_tokens"
    ∷ drop_index "ix_refresh_tokens_is_revoked" "refresh_tokens"
    ∷ drop_index "ix_refresh_tokens_expires_at" "refresh_tokens"
    ∷ drop_index "ix_refresh_tokens_context_type" "refresh_tokens"
    ∷ drop_table "refresh_tokens"
    ∷ drop_index "ix_password_resets_user_id" "password_resets"
    ∷ drop_index "ix_password_resets_token_hash" "password_resets"
    ∷ drop_index "ix_password_resets_is_used" "password_resets"
    ∷ drop_index "ix_password_resets_expires_at" "password_resets"
    ∷ drop_table "password_resets"
    ∷ drop_index "ix_login_attempts_user_id" "login_attempts"
    ∷ drop_index "ix_login_attempts_organization_id" "login_attempts"
    ∷ drop_index "ix_login_attempts_membership_id" "login_attempts"
    ∷ drop_index "ix_login_attempts_identifier" "login_attempts"
    ∷ drop_index "ix_login_attempts_context_type" "login_attempts"
    ∷ drop_table "login_attempts"
    ∷ drop_index "ix_auth_events_user_id" "auth_events"
    ∷ drop_index "ix_auth_events_organization_id" "auth_events"
    ∷ drop_index "ix_auth_events_membership_id" "auth_events"
    ∷ drop_index "ix_auth_events_event_type" "auth_events"
    ∷ drop_index "ix_auth_events_context_type" "auth_events"
    ∷ drop_table "auth_events"
    ∷ drop_index "ix_auth_credentials_user_id" "auth_credentials"
    ∷ drop_table "auth_credentials"
    ∷ []
