-- ===== src/Integrations.antt =====
-- app/integrations: the clients of the User Service and the Session Service.
pub mod Json
pub mod Http
pub mod Retry
pub mod Headers
pub mod Answer
pub mod UserService
pub mod SessionService
