-- ===== src/Tests/Registrations.antt =====
-- The theorems on registration, at the sample.
use buildos_auth_service.Prelude.{◌≡◌, refl, true, none, some, [], ◌∷◌, find}
use buildos_auth_service.Core.TokenType
use buildos_auth_service.Core.Exceptions.{pending_rollback}
use buildos_auth_service.Database.{IfReturns, ok, err, raise}
use buildos_auth_service.Repositories.Credential.{belongs_to}
use buildos_auth_service.Services.Authentication.Outcome.{admits}
use buildos_auth_service.Services.Registration.{Surroundings, UserFields, CreatedUser, register}
use buildos_auth_service.Services.Registration.Replay.{
  register-replayed, register-race, register-admits,
}
use buildos_auth_service.Tests.Sample.{sample, sample-IsLawful, stored, nothing_stored, ann}

abbrev fields : UserFields
fields = record {
  email = some "ann@example.org";
  phone = none;
  username = some "ann";
  first_name = none;
  last_name = none;
  display_name = none;
  country = none;
  timezone = "Africa/Lagos";
  language = "en";
}

abbrev user : CreatedUser
user = record { user_id = 7; public_id = "u-7"; status = "pending"; created_at = 0 }

-- No other session is at work.
abbrev alone : Surroundings
alone = record {
  create_user = λ key f. ok user;
  meanwhile = λ w. w;
  query_after_failure = raise pending_rollback;
}

-- Another session stores the credential first.
abbrev raced : Surroundings
raced = record alone { meanwhile = λ w. record w { credentials = ann ∷ [] } }

register-replayed_example :
    register (sample TokenType.refresh) alone "key" fields "right" none none stored
    ≡ register (sample TokenType.refresh) alone "key" fields "guess" none none stored
unfolding find
register-replayed_example =
    register-replayed (sample TokenType.refresh) alone "key" fields none none user stored refl ann
      "right" "guess" refl

register-race_example :
    (register (sample TokenType.refresh) raced "key" fields "right" none none nothing_stored).0
    ≡ err pending_rollback
unfolding find
register-race_example =
    register-race (sample TokenType.refresh) raced "key" fields none none user nothing_stored refl
      ann "right" refl (λ v. refl) (λ v. refl)

register-admits_example :
    IfReturns
      (λ r w'.
        admits (sample TokenType.refresh) "right" 99 (find (belongs_to 7) w'.credentials) ≡ true)
      (register (sample TokenType.refresh) alone "key" fields "right" none none nothing_stored)
unfolding find
register-admits_example =
    register-admits (sample TokenType.refresh) alone "key" fields none none user nothing_stored refl
      (sample-IsLawful TokenType.refresh) "right" 99 refl (λ v. refl)
