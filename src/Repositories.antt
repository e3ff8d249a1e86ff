-- ===== src/Repositories.antt =====
-- app/repositories: the access to each table.
pub mod Credential
pub mod Token
pub mod Event
pub mod LoginAttempts
pub mod PasswordResets
