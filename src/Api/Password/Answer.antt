-- ===== src/Api/Password/Answer.antt =====
-- What a client can tell from the answer to a reset request.
use buildos_auth_service.Prelude.{ℕ, ◌≡◌, String, true, Option, none, find, arith}
use buildos_auth_service.External.{External}
use buildos_auth_service.Database.{World, ok}
use buildos_auth_service.Repositories.PasswordResets.{has_hash}
use buildos_auth_service.Services.UserDirectory.{UserDirectory}
use buildos_auth_service.Services.Password.{hash_reset_token}
use buildos_auth_service.Api.Password.{request_password_reset}

-- Where the new token's hash is not stored yet, a request for an identifier that the user directory
-- knows and one for an identifier that it does not know have the same answer.
pub request_reset-answer :
    (x : External) (users : UserDirectory) (identifier : String) (ip_address : Option String)
    (known : Option ℕ) (w : World)
    → users.resolve_identifier identifier ≡ ok known
    → find (has_hash (hash_reset_token x (x.token_urlsafe 48 w.draws))) w.password_resets ≡ none
    → (request_password_reset x users identifier ip_address w).0 ≡ ok true
unfolding request_password_reset
request_reset-answer x users identifier ip_address known w resolved unseen =
    ground (arith, resolved, unseen)
