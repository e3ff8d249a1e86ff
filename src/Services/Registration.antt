-- ===== src/Services/Registration.antt =====
-- app/services/registration_service.py. The User Service's `create_user` is a parameter. So are what
-- other sessions commit between the query for the credential and its insertion, and what SQLAlchemy
-- does with a session whose flush has failed. Log messages are left out.
pub mod Replay
use buildos_auth_service.Prelude.{ℕ, String, Option, none, some}
use buildos_auth_service.Core.Context
use buildos_auth_service.Core.Event
use buildos_auth_service.Core.Exceptions.{integrity_error, integration}
use buildos_auth_service.Models.{AuthCredential}
use buildos_auth_service.External.{External}
use buildos_auth_service.Database.{
  World, Action, Result, ok, err, lift, modify, raise, or_raise, ◌>>=◌, ◌>>◌, return,
}
use buildos_auth_service.Repositories.Credential
use buildos_auth_service.Repositories.Event as Events
use buildos_auth_service.Security.PasswordHashing.{hash_password}
use buildos_auth_service.Services.Token.{TokenPair, issue_tokens}

-- What the User Service is told of a new user.
pub record UserFields : Type 0 where
  pub email : Option String
  pub phone : Option String
  pub username : Option String
  pub first_name : Option String
  pub last_name : Option String
  pub display_name : Option String
  pub country : Option String
  pub timezone : String
  pub language : String

pub record CreatedUser : Type 0 where
  pub user_id : ℕ
  pub public_id : String
  pub status : String
  pub created_at : ℕ

pub record RegistrationResult : Type 0 where
  pub user : CreatedUser
  pub tokens : TokenPair

-- What registration depends on beside the libraries.
pub record Surroundings : Type 0 where
  -- `UserService.create_user`, by idempotency key.
  pub create_user : String → UserFields → Result CreatedUser
  -- The commits of other sessions before the insertion.
  pub meanwhile : World → World
  -- The start of a query in a session whose flush has failed.
  pub query_after_failure : Action (Unit {0})

-- The `except IntegrityError` clause around the insertion.
unfoldable pub recover : Surroundings → ℕ → Result AuthCredential → Action (Unit {0})
unfolding Credential.get_by_user_id
recover env user_id (ok credential) = return tt
recover env user_id (err integrity_error) = do
  env.query_after_failure
  found ← Credential.get_by_user_id user_id
  or_raise found (
      integration
        "Authentication credentials already exist for this user, but could not be retrieved.")
  return tt
recover env user_id (err e) = raise e

-- The insertion, with the exceptions that it raises as a value.
abbrev pub try_create : External → ℕ → String → Action (Result AuthCredential)
try_create x user_id password_hash w =
    let (r, w') = Credential.create x user_id password_hash w in (ok r, w')

-- The third step of `register`, after the query.
unfoldable pub ensure_credential :
    External → Surroundings → ℕ → String → Option AuthCredential → Action (Unit {0})
unfolding Credential.create recover
ensure_credential x env user_id password_hash (some credential) = return tt
ensure_credential x env user_id password_hash none = do
  modify env.meanwhile
  created ← try_create x user_id password_hash
  recover env user_id created

unfoldable pub register :
    External
    → Surroundings
    → (idempotency_key : String) (fields : UserFields) (password : String)
    → (ip_address user_agent : Option String) → Action RegistrationResult
unfolding hash_password Credential.get_by_user_id ensure_credential Events.create_auth_event
    issue_tokens
register x env idempotency_key fields password ip_address user_agent = do
  user ← lift (env.create_user idempotency_key fields)
  password_hash ← hash_password x password
  found ← Credential.get_by_user_id user.user_id
  ensure_credential x env user.user_id password_hash found
  Events.create_auth_event x (some user.user_id) Context.personal Event.registration_completed none
      none ip_address user_agent none
  tokens ← issue_tokens x user.user_id Context.personal none none none
  return (record { user = user; tokens = tokens })
