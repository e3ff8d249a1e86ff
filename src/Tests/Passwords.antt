-- ===== src/Tests/Passwords.antt =====
-- The theorems on password changes and resets, at the sample.
use mathlib.Core.Option
use buildos_auth_service.Services.Password.Race.{confirm_both, confirm_both-BothCompleted}
use buildos_auth_service.Prelude.{◌≡◌, refl, true, none, some, [], find, select, update}
use buildos_auth_service.Core.Context
use buildos_auth_service.Core.TokenType
use buildos_auth_service.Database.{IfReturns, Returns, is_ok, ok}
use buildos_auth_service.Repositories.Credential.{belongs_to}
use buildos_auth_service.Repositories.PasswordResets.{has_id}
use buildos_auth_service.Repositories.Token.{in_scope}
use buildos_auth_service.Security.PasswordHashing.{verify_password}
use buildos_auth_service.Services.Password.{change_password, confirm_reset, hash_reset_token}
use buildos_auth_service.Services.Password.Change.{
  change_password-may_change, change_password-with_password,
}
use buildos_auth_service.Services.Password.Reset.{confirm_reset-resets, confirm_reset-with_password}
use buildos_auth_service.Api.Password.{request_password_reset}
use buildos_auth_service.Api.Password.Answer.{request_reset-answer}
use buildos_auth_service.Tests.Sample.{
  strokes, sample, stored, ann, reset_row, context, directory, ann_status,
}

change_password-may_change_example :
    is_ok (change_password (sample TokenType.refresh) 7 "right" "new" context none stored).0 ≡ true
unfolding find verify_password
change_password-may_change_example =
    change_password-may_change (sample TokenType.refresh) 7 "right" "new" context none stored

change_password-with_password_example :
    IfReturns
      (λ r w'.
        (find (belongs_to 7) w'.credentials
          ≡ some (record ann { password_hash = "new"; password_changed_at = 10 }))
        × (select (in_scope 7 (some Context.personal) none none) w'.refresh_tokens ≡ [])
        × (r.changed ≡ true))
      (change_password (sample TokenType.refresh) 7 "right" "new" context none stored)
unfolding find
change_password-with_password_example =
    change_password-with_password (sample TokenType.refresh) 7 "right" "new" context none stored

confirm_reset-resets_example :
    is_ok (confirm_reset (sample TokenType.refresh) "reset" "new" none none none stored).0 ≡ true
unfolding find hash_reset_token
confirm_reset-resets_example =
    confirm_reset-resets (sample TokenType.refresh) "reset" "new" none none none stored

confirm_reset-with_password_example :
    IfReturns
      (λ done w'.
        (done.user_id ≡ 7)
        × (find (belongs_to 7) w'.credentials
            ≡ some (record ann { password_hash = "new"; password_changed_at = 10 }))
        × (select (in_scope 7 (some Context.personal) none none) w'.refresh_tokens ≡ [])
        × (w'.password_resets
            ≡ update
                (has_id 60)
                (λ row. record row { is_used = true; used_at = some 10 })
                stored.password_resets))
      (confirm_reset (sample TokenType.refresh) "reset" "new" none none none stored)
unfolding find hash_reset_token
confirm_reset-with_password_example =
    confirm_reset-with_password (sample TokenType.refresh) "reset" "new" none none none stored
      reset_row refl

request_reset-answer_example :
    (request_password_reset (sample TokenType.refresh) (directory ann_status) "ann" none stored).0
    ≡ ok true
unfolding find hash_reset_token strokes
request_reset-answer_example =
    request_reset-answer (sample TokenType.refresh) (directory ann_status) "ann" none (some 7)
      stored refl refl

confirm_both-BothCompleted_example :
    Returns
      (λ results w'.
        (results.0.reset ≡ true)
        × (results.1.reset ≡ true)
        × (Option.map (λ c. c.password_hash) (find (belongs_to 7) w'.credentials) ≡ some "third"))
      (confirm_both (sample TokenType.refresh) "reset" "second" "third" none none 10 stored)
unfolding find hash_reset_token
confirm_both-BothCompleted_example =
    confirm_both-BothCompleted (sample TokenType.refresh) none none 10 reset_row ann "reset"
      "second" "third" stored refl refl
