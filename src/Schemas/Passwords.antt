-- ===== src/Schemas/Passwords.antt =====
-- One password through the schemas of registration, login, change and reset.
use Prim.Native.String.{count}
use buildos_auth_service.Prelude.{
  ◌<◌, ◌≡◌, String, true, false, ◌||◌, Option, none, some, arith, strip, strip_idem, is_empty,
}
use buildos_auth_service.Api.Auth.{LoginRequest}
use buildos_auth_service.Api.Register.{RegisterRequest}
use buildos_auth_service.Schemas.Auth.{accepts_register, accepts_login}
use buildos_auth_service.Schemas.Password.{
  accepts_change_password, accepts_confirm_reset, password_reset_request,
}

-- A new password that a change or a reset accepts can be used to log in, and to change it again to
-- another accepted one: the limits of the later requests include it.
pub accepts_login-new_password :
    (current_password new_password next reset_token : String) (r : LoginRequest)
    → (accepts_change_password current_password new_password
        || accepts_confirm_reset reset_token new_password)
      ≡ true
    → accepts_login r ≡ true
    → accepts_change_password current_password next ≡ true
    → (accepts_login (record r { password = new_password }) ≡ true)
      × (accepts_change_password new_password next ≡ true)
unfolding accepts_login accepts_change_password accepts_confirm_reset
accepts_login-new_password current_password new_password next reset_token r new login_ok change_ok =
    ground arith

-- A password of more than 128 characters that registration accepts can be used to log in, but no
-- request to change it is accepted, whatever the new password.
pub accepts_register-long_password :
    (r : RegisterRequest) (l : LoginRequest) (new_password : String)
    → accepts_register r ≡ true
    → accepts_login l ≡ true
    → 128 < count r.password
    → (accepts_login (record l { password = r.password }) ≡ true)
      × (accepts_change_password r.password new_password ≡ false)
unfolding accepts_register accepts_login accepts_change_password
accepts_register-long_password r l new_password accepted login_ok long = ground arith

-- What the reset endpoint gets for an identifier, if it is accepted.
abbrev pub IsNormalized : Option String → Type 0
IsNormalized none = Unit
IsNormalized (some s) = (strip s ≡ s) × (is_empty s ≡ false)

-- The identifier of an accepted reset request has no white space around it and is not empty.
pub password_reset_request-IsNormalized :
    (identifier : String) → IsNormalized (password_reset_request identifier)
unfolding password_reset_request
password_reset_request-IsNormalized identifier = ground (arith, strip_idem identifier)
