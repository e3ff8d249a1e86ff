-- ===== src/Tests/Calls.antt =====
-- The theorems on the application, at the sample.
use mathlib.Core.Option
use buildos_auth_service.Prelude.{
  ◌≡◌, ◌↔◌, All, refl, String, true, false, Option, none, some, List, find, arith, strip, is_space,
}
use buildos_auth_service.Core.TokenType
use buildos_auth_service.Api.Errors.Classes.{one_of}
use buildos_auth_service.Api.Auth.Rollback.{SameTables}
use buildos_auth_service.App.Routes as Routes
use buildos_auth_service.App.Routes.{Method, post, Endpoint, Route, create_application}
use buildos_auth_service.App.Reach.{matches, is_at, url, create_application-url}
use buildos_auth_service.Schemas.Password.{accepts_confirm_reset, is_not_blank}
use buildos_auth_service.Services.Password.{confirm_reset}
use buildos_auth_service.Api.Password.{confirm_password_reset}
use buildos_auth_service.App.Call.{accepts}
use buildos_auth_service.App.Call as Call
use buildos_auth_service.App.Answer.{Framework, IsFramework, other, answered}
use buildos_auth_service.App.Serve.{deployment, run, serve}
use buildos_auth_service.App.Atomic.{serve-SameTables}
use buildos_auth_service.App.Endpoints.{over_clients, codes_of}
use buildos_auth_service.App.StatusCodes.{serve-status_codes}
use buildos_auth_service.Tests.Sample.{sample, stored, directory, ann_status, sessions, created}
use buildos_auth_service.Tests.Retries.{repeated, repeated-IsRetry, answering, user_seven, down}

abbrev first_route : List Route → Method → String → Option Endpoint
first_route routes method path = Option.map (λ r. r.endpoint) (find (matches method path) routes)

create_application-url_example :
    ((first_route create_application post "/api/v1/auth/login" ≡ some Routes.login)
      ↔ (is_at post "/api/v1/auth/login" (url Routes.login) ≡ true))
    × All (λ r. first_route create_application r.method r.path ≡ some r.endpoint) create_application
create_application-url_example =
    create_application-url first_route (record { first = λ routes method path static. refl }) post
      "/api/v1/auth/login" Routes.login refl

abbrev framework : Framework
framework = record {
  unprocessable = record { status_code = 422; body = other "unprocessable" };
  rate_exceeded = record { status_code = 429; body = other "rate" };
  unhandled = λ e. record { status_code = 500; body = other "error" };
}

framework-IsFramework : IsFramework framework
framework-IsFramework = record { unprocessable = refl; rate_exceeded = refl; unhandled = λ e. refl }

-- A reset token that nobody has.
serve-SameTables_example :
    SameTables stored
      (serve
        (deployment
          (sample TokenType.refresh)
          framework
          (answering down)
          (directory ann_status)
          sessions
          created)
        false
        (Call.confirm_password_reset "unknown" "long enough" none none)
        stored).1
unfolding find serve accepts accepts_confirm_reset is_not_blank run answered strip is_space
    confirm_password_reset confirm_reset
serve-SameTables_example =
    serve-SameTables (sample TokenType.refresh) framework (answering down) (directory ann_status)
      sessions created false (Call.confirm_password_reset "unknown" "long enough" none none) stored
      (omega arith)

serve-status_codes_example :
    one_of
      (serve
        (over_clients (sample TokenType.refresh) framework (answering user_seven) repeated)
        false
        (Call.logout "ii" none none)
        stored).0.status_code
      (codes_of (Call.logout "ii" none none))
    ≡ true
serve-status_codes_example =
    serve-status_codes (sample TokenType.refresh) framework framework-IsFramework
      (answering user_seven) repeated repeated-IsRetry false (Call.logout "ii" none none) stored
