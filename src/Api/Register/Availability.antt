-- ===== src/Api/Register/Availability.antt =====
-- What the answer of the availability check means.
use buildos_auth_service.Prelude.{
  ℕ, ◌≡◌, String, Bool, true, false, ◌&&◌, Option, none, some, arith, if_given,
}
use buildos_auth_service.Database.{World, Result, ok, err, IfReturns}
use buildos_auth_service.Services.UserDirectory.{UserDirectory}
use buildos_auth_service.Api.Register.{check_availability}

-- The User Service answers that it knows no such user.
abbrev pub is_unknown : Result (Option ℕ) → Bool
is_unknown (ok none) = true
is_unknown (ok (some user_id)) = false
is_unknown (err e) = false

-- The value is not given, or it is unknown.
abbrev pub is_free : UserDirectory → Option String → Bool
is_free users none = true
is_free users (some identifier) = is_unknown (users.resolve_identifier identifier)

-- If the availability check returns, it says available exactly if each of the email and the username
-- that is given and not empty is unknown to the User Service, and it changes nothing.
pub check_availability-is_free :
    (users : UserDirectory) (email username : Option String) (w : World)
    → IfReturns
        (λ available w'.
          (available ≡ (is_free users (if_given email) && is_free users (if_given username)))
          × (w' ≡ w))
        (check_availability users email username w)
unfolding check_availability
check_availability-is_free users email username w = ground arith
