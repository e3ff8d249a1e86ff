-- ===== src/Services/Registration/Replay.antt =====
-- What registration leaves: a new user, a replayed one, and two requests at once.
use buildos_auth_service.Prelude.{
  ℕ, ◌+◌, ◌≡◌, String, true, Option, none, some, find, find-append, arith, eq_self,
}
use buildos_auth_service.Core.Exceptions.{pending_rollback}
use buildos_auth_service.Models.{AuthCredential}
use buildos_auth_service.External.{External, IsLawful}
use buildos_auth_service.Database.{World, IfReturns, ok, err}
use buildos_auth_service.Repositories.Credential.{belongs_to}
use buildos_auth_service.Security.Authentication.{can_authenticate}
use buildos_auth_service.Security.PasswordHashing.{verify_password}
use buildos_auth_service.Services.Authentication.Outcome.{admits}
use buildos_auth_service.Services.Registration.{Surroundings, UserFields, CreatedUser, register}

module _ (x : External) (env : Surroundings) (idempotency_key : String) (fields : UserFields)
    (ip_address user_agent : Option String) (user : CreatedUser) (w : World)
    (created : env.create_user idempotency_key fields ≡ ok user) where
  -- A registration that the User Service answers with a user who has a credential does not depend on
  -- the password: with any two passwords it has the same result, tokens included, and leaves the same
  -- state.
  pub register-replayed :
      (c : AuthCredential) (p q : String)
      → find (belongs_to user.user_id) w.credentials ≡ some c
      → register x env idempotency_key fields p ip_address user_agent w
        ≡ register x env idempotency_key fields q ip_address user_agent w
  unfolding register
  register-replayed c p q e = ground (arith, created, e)

  -- If another session has stored a credential of the user between the query and the insertion, and
  -- SQLAlchemy refuses a query after a failed flush, then the registration raises that refusal: the
  -- recovery is not reached.
  pub register-race :
      (c : AuthCredential) (password : String)
      → find (belongs_to user.user_id) w.credentials ≡ none
      → ((v : World) → find (belongs_to user.user_id) (env.meanwhile v).credentials ≡ some c)
      → ((v : World) → env.query_after_failure v ≡ (err pending_rollback, v))
      → (register x env idempotency_key fields password ip_address user_agent w).0
        ≡ err pending_rollback
  unfolding register
  register-race c password e raced refused =
      let hashed : World = record w { draws = w.draws + 1 } in
      ground (arith, created, e, raced hashed, refused (env.meanwhile hashed))

  -- If a registration returns for a user without a credential, and no other session stores one
  -- meanwhile, the user has a credential that admits the password at every time. It needs that
  -- Argon2 verifies the hash that it made.
  pub register-admits :
      (law : IsLawful x) (password : String) (at : ℕ)
      → find (belongs_to user.user_id) w.credentials ≡ none
      → ((v : World) → env.meanwhile v ≡ v)
      → IfReturns
          (λ r w'. admits x password at (find (belongs_to user.user_id) w'.credentials) ≡ true)
          (register x env idempotency_key fields password ip_address user_agent w)
  unfolding register can_authenticate verify_password find
  register-admits law password at e alone = grind (
    arith,
    created,
    e,
    alone,
    law.argon2_verify-argon2_hash w.draws password,
    find-append,
    eq_self,
  )
