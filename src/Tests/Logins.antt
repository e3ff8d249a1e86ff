-- ===== src/Tests/Logins.antt =====
-- The theorems on logins and attempts, at the sample.
use buildos_auth_service.Prelude.{◌≡◌, refl, true, false, none, some, [], ◌∷◌, find, arith}
use buildos_auth_service.Core.TokenType
use buildos_auth_service.Database.{Returns, is_ok, World}
use buildos_auth_service.Repositories.Credential.{belongs_to}
use buildos_auth_service.Security.Authentication.{lock_has_expired, can_authenticate}
use buildos_auth_service.Security.PasswordHashing.{verify_password}
use buildos_auth_service.Services.Authentication.{authenticate}
use buildos_auth_service.Services.Authentication.Outcome.{authenticate-admits}
use buildos_auth_service.Services.Authentication.Effect.{FindsAfter, authenticate-FindsAfter}
use buildos_auth_service.Services.Authentication.Lockout.{
  IsOpen, attempt_all, attempt_all-lockout, authenticate-relock,
}
use buildos_auth_service.Services.Login.{login, is_allowed_status}
use buildos_auth_service.Services.Login.Decision.{login-login_admits}
use buildos_auth_service.Tests.Sample.{
  sample, stored, ann, locked_ann, context, directory, ann_status,
}

authenticate-admits_example :
    Returns
      (λ r w'. r.authenticated ≡ true)
      (authenticate (sample TokenType.refresh) 7 "right" "ann" context none stored)
unfolding authenticate can_authenticate verify_password find
authenticate-admits_example =
    authenticate-admits (sample TokenType.refresh) 7 "right" "ann" context none stored

authenticate-FindsAfter_example :
    Returns
      (λ r w'. FindsAfter (sample TokenType.refresh) 7 "wrong" 10 stored w')
      (authenticate (sample TokenType.refresh) 7 "wrong" "ann" context none stored)
authenticate-FindsAfter_example =
    authenticate-FindsAfter (sample TokenType.refresh) 7 "wrong" "ann" context none stored

-- Two users.
abbrev two_users : World
two_users = record stored { credentials = ann ∷ record ann { id = 2; user_id = 8 } ∷ [] }

ann-IsOpen : IsOpen (sample TokenType.refresh).settings ann
ann-IsOpen = record { active = refl; unlocked = refl; below = omega arith; lasting = omega arith }

attempt_all-lockout_example :
    Returns
      (λ r w'. r.authenticated ≡ false)
      (authenticate
        (sample TokenType.refresh)
        7
        "right"
        "ann"
        context
        (some 10)
        (attempt_all (sample TokenType.refresh) 7 "ann" context 10 ("a" ∷ "b" ∷ []) stored))
unfolding find verify_password
attempt_all-lockout_example =
    attempt_all-lockout (sample TokenType.refresh) 7 "ann" context 10 ann ann-IsOpen
      ("a" ∷ "b" ∷ []) "right" stored (refl, (refl, tt)) refl

authenticate-relock_example :
    find
      (belongs_to 7)
      (authenticate
        (sample TokenType.refresh)
        7
        "wrong"
        "ann"
        context
        (some 10)
        (record stored { credentials = locked_ann ∷ [] })).1.credentials
    ≡ some (record locked_ann {
      failed_login_count = 3;
      is_locked = true;
      locked_until = some 900000010;
    })
unfolding find verify_password lock_has_expired
authenticate-relock_example =
    authenticate-relock (sample TokenType.refresh) 7 "ann" context "wrong" 10 locked_ann
      (record stored { credentials = locked_ann ∷ [] }) refl refl refl (omega arith) refl

login-login_admits_example :
    is_ok (login (sample TokenType.refresh) (directory ann_status) "ann" "right" context stored).0
    ≡ true
unfolding find verify_password can_authenticate is_allowed_status
login-login_admits_example =
    login-login_admits (sample TokenType.refresh) (directory ann_status) "ann" "right" context
      stored
