-- ===== src/Api.antt =====
-- app/api: the handlers of requests. Each runs in the database session of its request, so it is
-- `with_session` of a handler. Payloads are those that have passed the schemas' validation; an
-- exception that is no HTTPException becomes a status 500 outside the handlers.
pub mod Errors
pub mod Dependencies
pub mod Auth
pub mod Token
pub mod Password
pub mod Register
pub mod Status
pub mod Health
