-- ===== src/Lib.antt =====
-- BuildOS Auth Service: passwords, lockout, tokens, resets and the endpoints that use them.
--
-- The program is a FastAPI service. A request handler in app/api opens one database session
-- (app/database/dependencies.py), calls one or two services (app/services), which use the checks of
-- app/security and read and write the tables of app/models through app/repositories, and ask the
-- User Service and the Session Service over HTTP (app/integrations). The session commits if the
-- handler returns and rolls back if it raises.
--
-- The files, and the code that each one models:
--   Core                 app/core/constants.py, app/core/exceptions.py, and the part of the Settings
--                        of app/core/config.py that the modelled code reads, with their check in
--                        production, and the rates of app/core/rate_limit.py
--   Models               app/models: a record for a row of each table
--   Database             app/database/dependencies.py: the state `World`, actions on it, and `get_db`
--                        as `with_session`
--   External             argon2, pyjwt, hashlib, secrets and uuid, as functions of a record
--   Repositories         app/repositories, one module for each class
--   Security             app/security, one module for each file; Locks has theorems
--   Services             app/services, one module for each file; UserDirectory is the interface of
--                        app/integrations/user_service.py that the login and password services use
--   Api                  app/api/dependencies.py, app/api/health.py, app/api/v1 and
--                        app/api/internal/endpoints/status.py; Errors has the `except` clauses of the
--                        handlers
--   Schemas              app/schemas: the limits and validators of the requests, and the fields of
--                        the responses
--   Integrations         app/integrations/user_service.py and app/integrations/session_service.py:
--                        Json, Http and Retry are what they use, Answer and Headers what they share;
--                        UserService.Status fills the interface UserDirectory
--   System               a sequence of requests on the stored state, with time going on between them,
--                        and the endpoints over the two clients; Kept is the interface of a property
--                        that each service keeps, with what follows for the requests; Past, Used,
--                        Consistency, Uniqueness and Deadlines fill it; Lifecycle has the abstract
--                        machine of a refresh token
--   App                  app/main.py, app/api/v1/router.py and app/api/internal/router.py: Routes has
--                        the routers, Call, Answer and Serve an HTTP call through the application
--                        with its request schema, its rate limit and its response
--   Migrations           the tables, the indexes, `upgrade` and `downgrade` of the one revision in
--                        alembic/versions, as lists of operations; Undo has the round trip
--   Prelude              names, tests, tables and lists that the others share
--   Tests                a concrete service, and the theorems applied to it
-- A function keeps its name. A long method is split at its stages: `authenticate` into
-- `check_credential` and `complete_login`, `refresh` into `check_refresh`, `rotate_presented` and
-- `retire_presented`, `confirm_reset` into `check_reset` and `complete_reset`, and the login
-- endpoint into `login_handler`, `answer_login`, `issue_and_answer` and `open_session`. A call of
-- the User Service is split into its request, its answer after the response, and the attempt that
-- has both; `_request`, `_answer` and `_attempt` end their names.
--
-- State: a table is the list of its rows, in the order of insertion. An update through an object is
-- the change of the row with the object's id, and the object as it then is is the result. A unique
-- column refuses a second row with an IntegrityError, as an insert's flush does. Exceptions are
-- values: an action is a function from a `World` to a result and a `World`, and what was written
-- before an exception stays until the session ends. Times are microseconds since the epoch and
-- UUIDs are numbers. The clock stands still within one request. Random draws (ids, salts, tokens)
-- are numbered, and a library function of the number says what was drawn.
--
-- Parameters: `External` has the libraries' functions; `IsLawful` and `Decodes` state what their
-- documentation says, and a theorem that relies on them has them as hypotheses. `UserDirectory` and
-- `CreateSession` are the two remote services, with one answer for each call within a request.
-- `Surroundings` has what registration depends on: the User Service, the commits of other sessions
-- before its insertion, and what SQLAlchemy does after a failed flush.
-- `Wire` is the HTTP client httpx: the outcome of each request in each attempt, a response or an
-- httpx.HTTPError. `Retry` is tenacity's `retry`; `IsRetry` states what its documentation says of
-- attempts that are retried, of the first that is not, and of the callback after the last one.
-- `Framework` has what FastAPI and slowapi answer by themselves, `IsFramework` the documented status
-- codes of that, and `IsDispatch` FastAPI's documented choice of a route. The limiter's verdict comes
-- with each call. `Operations` has what alembic and PostgreSQL make of a schema at an operation of the
-- migration, and `IsUndone` what is documented of a drop after the creation.
-- There is no fuel: no modelled code loops but over finite lists, and the retries are three.
--
-- Not modelled: the parsing of requests into the fields of the schemas and of the Authorization
-- header into a token, the count of requests that slowapi keeps, logging, the waits between attempts
-- and the timeouts, the reading of settings from the environment, and alembic's environment. The
-- tables here refuse nothing but a second value in a unique column: PostgreSQL also refuses a text
-- that is longer than its column, in the request as an exception that ends with status 500, and a
-- second row with a primary key, which are drawn by uuid4 and taken not to collide. The counts among
-- the settings are natural numbers, where app/core/config.py has int. The requests of System are
-- handled one after the other: two sessions that overlap are covered only where registration inserts
-- a credential, where one refresh token is presented twice (Services.Token.Race), or one reset token
-- (Services.Password.Race). The second `get_db`, of app/database/session.py, is used by nothing.
pub mod Prelude
pub mod Core
pub mod Models
pub mod Database
pub mod External
pub mod Repositories
pub mod Security
pub mod Services
pub mod Api
pub mod Schemas
pub mod Integrations
pub mod System
pub mod App
pub mod Migrations
pub mod Tests
