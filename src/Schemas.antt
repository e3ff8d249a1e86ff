-- ===== src/Schemas.antt =====
-- app/schemas: which payloads reach the handlers. The length of a text is its number of code points;
-- a payload that is refused is answered with status 422 before a handler runs.
pub mod Limits
pub mod Auth
pub mod Password
pub mod Token
pub mod Passwords
