-- ===== src/App.antt =====
-- app/main.py: the application, which dispatches a call to an endpoint and makes an HTTP response of
-- what the endpoint returns or raises. FastAPI and slowapi are parameters.
pub mod Routes
pub mod Reach
pub mod Call
pub mod Answer
pub mod Serve
pub mod Sessions
pub mod Atomic
pub mod Errors
pub mod Statuses
pub mod Remote
pub mod Endpoints
pub mod StatusCodes
