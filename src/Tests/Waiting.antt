-- ===== src/Tests/Waiting.antt =====
-- The theorems on waiting, at the sample.
use buildos_auth_service.Prelude.{◌≡◌, refl, false, none, [], ◌∷◌, every, arith}
use buildos_auth_service.Core.TokenType
use buildos_auth_service.Core.Config.{days, minutes}
use buildos_auth_service.Core.Exceptions.{password_reset}
use buildos_auth_service.Database.{World, err, is_ok}
use buildos_auth_service.Services.Login.{login}
use buildos_auth_service.Services.Token.{refresh}
use buildos_auth_service.Services.Password.{confirm_reset}
use buildos_auth_service.System.{handle, handle_all}
use buildos_auth_service.System as System
use buildos_auth_service.System.Expiry.{
  login_fits, login-after_wait, refresh-after_wait, confirm_reset-after_wait,
}
use buildos_auth_service.Tests.Sample.{
  sample, stored, locked_ann, directory, ann_status, sessions, context, created,
}

-- The credential is locked until the time 5.
abbrev locked : World
locked = record stored { credentials = locked_ann ∷ []; clock = 0 }

login-after_wait_example :
    is_ok
      (login (sample TokenType.refresh) (directory ann_status) "ann" "right" context (
        handle
          (sample TokenType.refresh)
          (directory ann_status)
          sessions
          created
          (System.wait (minutes 15))
          (handle_all
            (sample TokenType.refresh)
            (directory ann_status)
            sessions
            created
            (System.refresh_token "ii" none none ∷ [])
            locked))).0
    ≡ login_fits
        (sample TokenType.refresh)
        (directory ann_status)
        "right"
        (handle_all
          (sample TokenType.refresh)
          (directory ann_status)
          sessions
          created
          (System.refresh_token "ii" none none ∷ [])
          locked)
        ((directory ann_status).resolve_identifier "ann")
unfolding every
login-after_wait_example =
    login-after_wait (sample TokenType.refresh) (directory ann_status) sessions created
      (System.refresh_token "ii" none none ∷ []) (minutes 15) locked refl "ann" "right" context
      (omega arith)

refresh-after_wait_example :
    is_ok
      (refresh (sample TokenType.refresh) "ii" none none none (
        handle
          (sample TokenType.refresh)
          (directory ann_status)
          sessions
          created
          (System.wait (days 30))
          (handle_all
            (sample TokenType.refresh)
            (directory ann_status)
            sessions
            created
            (System.request_password_reset "ann" none ∷ [])
            stored))).0
    ≡ false
unfolding every
refresh-after_wait_example =
    refresh-after_wait (sample TokenType.refresh) (directory ann_status) sessions created
      (System.request_password_reset "ann" none ∷ []) (days 30) stored refl "ii" none none
      (omega arith)

confirm_reset-after_wait_example :
    (confirm_reset (sample TokenType.refresh) "reset" "second" none none none (
      handle
        (sample TokenType.refresh)
        (directory ann_status)
        sessions
        created
        (System.wait (minutes 30))
        (handle_all
          (sample TokenType.refresh)
          (directory ann_status)
          sessions
          created
          (System.request_password_reset "ann" none ∷ [])
          stored))).0
    ≡ err (password_reset "Invalid or expired reset token.")
unfolding every
confirm_reset-after_wait_example =
    confirm_reset-after_wait (sample TokenType.refresh) (directory ann_status) sessions created
      (System.request_password_reset "ann" none ∷ []) (minutes 30) stored refl "reset" "second" none
      none (omega arith)
