-- ===== src/Tests.antt =====
-- A concrete service and the theorems of the development at it.
pub mod Sample
mod Logins
mod Tokens
mod Passwords
mod Requests
mod Registrations
pub mod Retries
mod Clients
mod Settings
mod Migrations
mod Waiting
mod Calls
