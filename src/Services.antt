-- ===== src/Services.antt =====
-- app/services: the use cases, over the repositories and the security layer.
pub mod Context
pub mod Authentication
pub mod Token
pub mod Logout
pub mod Password
pub mod CredentialSync
pub mod UserDirectory
pub mod Login
pub mod Registration
