-- ===== src/Tests/Tokens.antt =====
-- The theorems on tokens, at the sample.
use buildos_auth_service.Prelude.{◌≡◌, refl, none, find, arith}
use buildos_auth_service.Core.Context
use buildos_auth_service.Core.TokenType
use buildos_auth_service.External.{get_claim}
use buildos_auth_service.Security.TokenSigning.{token_payload}
use buildos_auth_service.Database.{Returns, IfReturns, ok}
use buildos_auth_service.Services.Token.{Presented, check_refresh, issue_tokens, refresh}
use buildos_auth_service.Services.Token.Rotation.{Rotated, refresh-Rotated}
use buildos_auth_service.Services.Token.Race.{
  BothActive, IsFresh, refresh_both, refresh_both-BothActive,
}
use buildos_auth_service.Services.Token.RoundTrip.{expected, issue_tokens-check_refresh}
use buildos_auth_service.Tests.Sample.{
  strokes, count_strokes, sample, sample-IsLawful, stored, nothing_stored, token_row,
}

-- What the checks read from the sample token.
abbrev presented : Presented
presented = record {
  stored = token_row;
  user_id = 7;
  context_type = Context.personal;
  organization_id = none;
  membership_id = none;
}

refresh-Rotated_example :
    Returns
      (Rotated (sample TokenType.refresh) "ii" 10 stored presented)
      (refresh (sample TokenType.refresh) "ii" none none none stored)
unfolding check_refresh find get_claim token_payload strokes count_strokes
refresh-Rotated_example =
    refresh-Rotated (sample TokenType.refresh) "ii" none none none presented stored refl
      (ground arith) refl

issue_tokens-check_refresh_example :
    IfReturns
      (λ pair w'.
        check_refresh (sample TokenType.refresh) pair.refresh_token 20 (record w' { clock = 20 })
        ≡ (
          ok (
              expected
                (sample TokenType.refresh)
                7
                Context.personal
                none
                none
                0
                nothing_stored
                pair.refresh_token),
          record w' { clock = 20 },
        ))
      (issue_tokens (sample TokenType.refresh) 7 Context.personal none none none nothing_stored)
unfolding get_claim token_payload strokes
issue_tokens-check_refresh_example =
    issue_tokens-check_refresh (sample TokenType.refresh) (sample-IsLawful TokenType.refresh) 7
      Context.personal none none none nothing_stored 20
      (λ clock issued expires options _ _ _ _ _ _ _. refl) (omega arith) (omega arith)

presented-IsFresh : IsFresh (sample TokenType.refresh) presented 10 stored
unfolding find token_payload get_claim strokes
presented-IsFresh = record { unseen = refl; unseen' = refl; apart = refl; id = refl; id' = refl }

refresh_both-BothActive_example :
    Returns
      (λ pairs w'. BothActive (sample TokenType.refresh) pairs.0 pairs.1 w')
      (refresh_both (sample TokenType.refresh) "ii" none none 10 stored)
unfolding check_refresh find get_claim token_payload strokes count_strokes
refresh_both-BothActive_example =
    refresh_both-BothActive (sample TokenType.refresh) "ii" none none 10 presented stored refl
      presented-IsFresh
