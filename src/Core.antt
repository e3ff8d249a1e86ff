-- ===== src/Core.antt =====
-- app/core: the constants by family, the settings and the exceptions.
pub mod Context
pub mod Event
pub mod Failure
pub mod TokenType
pub mod Severity
pub mod Config
pub mod RateLimit
pub mod Exceptions
