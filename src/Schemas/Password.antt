-- ===== src/Schemas/Password.antt =====
-- app/schemas/password.py. A validator runs after the limits of its field.
use buildos_auth_service.Prelude.{
  ℕ, String, Bool, not, ◌&&◌, Option, none, some, strip, is_empty, if◌then◌else◌,
}
use buildos_auth_service.Schemas.Limits.{has_length}

-- `validate_new_password` and `validate_reset_token`: the text is not blank.
unfoldable pub is_not_blank : String → Bool
is_not_blank value = not (is_empty (strip value))

unfoldable pub accepts_change_password : (current_password new_password : String) → Bool
unfolding is_not_blank
accepts_change_password current_password new_password =
    has_length 1 128 current_password && has_length 8 128 new_password && is_not_blank new_password

-- `validate_identifier`, which returns the normalized identifier.
unfoldable pub validate_identifier : String → Option String
validate_identifier value =
    let normalized = strip value in if is_empty normalized then none else some normalized

-- The identifier that the handler gets.
unfoldable pub password_reset_request : String → Option String
unfolding validate_identifier
password_reset_request identifier =
    if has_length 1 255 identifier then validate_identifier identifier else none

unfoldable pub accepts_confirm_reset : (reset_token new_password : String) → Bool
unfolding is_not_blank
accepts_confirm_reset reset_token new_password =
    has_length 1 512 reset_token
    && has_length 8 128 new_password
    && is_not_blank reset_token
    && is_not_blank new_password

pub record ChangePasswordResponse : Type 0 where
  pub changed : Bool
  pub user_id : ℕ

pub record PasswordResetRequestResponse : Type 0 where
  pub requested : Bool

pub record PasswordResetConfirmResponse : Type 0 where
  pub reset : Bool
  pub user_id : ℕ
