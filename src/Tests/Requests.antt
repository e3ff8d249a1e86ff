-- ===== src/Tests/Requests.antt =====
-- The theorems on whole requests, at the sample.
use buildos_auth_service.Prelude.{every, distinct, ◌≡◌, refl, none, [], ◌∷◌, find}
use buildos_auth_service.Core.TokenType
use buildos_auth_service.Core.Exceptions.{password_reset, http}
use buildos_auth_service.Database.{IfReturns, err}
use buildos_auth_service.Security.PasswordHashing.{verify_password}
use buildos_auth_service.Services.Login.{is_allowed_status}
use buildos_auth_service.Services.Token.{refresh}
use buildos_auth_service.Api.Auth.{login}
use buildos_auth_service.Api.Auth.Rollback.{Resolves, SameTables, guess_all, guess_all-SameTables}
use buildos_auth_service.Api.Auth.Refusals.{login-status}
use buildos_auth_service.System.{handle_all}
use buildos_auth_service.System as System
use buildos_auth_service.System.Invariant.{IsConsistent, handle_all-IsConsistent}
use buildos_auth_service.System.Lifecycle.{Steps, token_state, handle_all-Steps}
use buildos_auth_service.System.Resets.{confirm_reset-once_ever}
use buildos_auth_service.Services.Token.Credentials.{swapped, refresh-IsBlind}
use buildos_auth_service.Services.Password.{confirm_reset}
use buildos_auth_service.System.Reuse.{refresh-once}
use buildos_auth_service.Tests.Sample.{
  sample_settings, sample, stored, ann, directory, ann_status, sessions, created,
}

ann-Resolves : Resolves (directory ann_status) "ann" 7
unfolding is_allowed_status
ann-Resolves = record { status = ann_status; resolved = refl; known = refl; allowed = refl }

guess_all-SameTables_example : SameTables stored (
    guess_all
      (sample TokenType.refresh)
      (directory ann_status)
      sessions
      "ann"
      none
      none
      none
      ("a" ∷ "b" ∷ "c" ∷ [])
      stored)
unfolding find verify_password
guess_all-SameTables_example =
    guess_all-SameTables (sample TokenType.refresh) (directory ann_status) sessions "ann" none none
      none 7 ann ann-Resolves ("a" ∷ "b" ∷ "c" ∷ []) stored refl (refl, (refl, (refl, tt)))

refresh-once_example :
    IfReturns
      (λ pair w'.
        IfReturns
          (λ again w''. ⊥)
          (refresh (sample TokenType.refresh) "ii" none none none (
            handle_all
              (sample TokenType.refresh)
              (directory ann_status)
              sessions
              created
              (System.wait 5 ∷ [])
              w')))
      (refresh (sample TokenType.refresh) "ii" none none none stored)
refresh-once_example =
    refresh-once (sample TokenType.refresh) (directory ann_status) sessions created
      (System.wait 5 ∷ []) "ii" none none none none none none stored

login-status_example :
    (login
      (sample TokenType.refresh)
      (directory (record ann_status { status = "deleted" }))
      sessions
      (record { identifier = "ann"; password = "right"; device_id = none })
      none
      none
      stored).0
    ≡ err (http 503 "User identity service is unavailable.")
unfolding is_allowed_status
login-status_example =
    login-status (sample TokenType.refresh) (directory (record ann_status { status = "deleted" }))
      sessions (record { identifier = "ann"; password = "right"; device_id = none }) none none
      stored 7 (record ann_status { status = "deleted" }) refl refl refl

stored-IsConsistent : IsConsistent sample_settings stored
unfolding every distinct
stored-IsConsistent = record { flags = refl; keys = refl; deadlines = refl }

handle_all-IsConsistent_example : IsConsistent sample_settings (
    handle_all
      (sample TokenType.refresh)
      (directory ann_status)
      sessions
      created
      (System.refresh_token "ii" none none ∷ System.wait 5 ∷ [])
      stored)
handle_all-IsConsistent_example =
    handle_all-IsConsistent (sample TokenType.refresh) (directory ann_status) sessions created
      (System.refresh_token "ii" none none ∷ System.wait 5 ∷ []) stored stored-IsConsistent

confirm_reset-once_ever_example :
    IfReturns
      (λ done w'.
        (confirm_reset (sample TokenType.refresh) "reset" "third" none none none (
          handle_all
            (sample TokenType.refresh)
            (directory ann_status)
            sessions
            created
            (System.request_password_reset "ann" none ∷ [])
            w')).0
        ≡ err (password_reset "Invalid or expired reset token."))
      (confirm_reset (sample TokenType.refresh) "reset" "second" none none none stored)
confirm_reset-once_ever_example =
    confirm_reset-once_ever (sample TokenType.refresh) (directory ann_status) sessions created
      (System.request_password_reset "ann" none ∷ []) "reset" "second" "third" none none none none
      none none stored stored-IsConsistent.keys

refresh-IsBlind_example :
    refresh (sample TokenType.refresh) "ii" none none none (swapped [] stored) ≡ (
      (refresh (sample TokenType.refresh) "ii" none none none stored).0,
      swapped [] (refresh (sample TokenType.refresh) "ii" none none none stored).1,
    )
refresh-IsBlind_example = refresh-IsBlind [] (sample TokenType.refresh) "ii" none none none stored

handle_all-Steps_example : Steps (token_state "ii" stored) (
    token_state "ii" (
      handle_all
        (sample TokenType.refresh)
        (directory ann_status)
        sessions
        created
        (System.refresh_token "ii" none none ∷ System.wait 5 ∷ [])
        stored))
handle_all-Steps_example =
    handle_all-Steps (sample TokenType.refresh) (directory ann_status) sessions created "ii"
      (System.refresh_token "ii" none none ∷ System.wait 5 ∷ []) stored stored-IsConsistent.keys
