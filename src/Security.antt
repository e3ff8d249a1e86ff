-- ===== src/Security.antt =====
-- app/security: lock state, rate limits, password hashes and tokens.
pub mod Authentication
pub mod RateLimiting
pub mod PasswordHashing
pub mod TokenSigning
pub mod TokenValidation
pub mod Locks
