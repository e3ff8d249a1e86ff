-- ===== src/Services/Token/RoundTrip.antt =====
-- From `issue_tokens` to the checks of `refresh` on the issued token.
use mathlib.Core.Option
use buildos_auth_service.Prelude.{
  ℕ, ◌+◌, ◌*◌, ◌/◌, ◌<◌, ◌≤◌, ◌≡◌, refl, sym, subst, String, false, Option, none, some, [], ◌∷◌,
  ◌++◌, arith, str_eq_self, find, find-append, or_default,
}
use buildos_auth_service.Core.Config.{days}
use buildos_auth_service.Core.TokenType
use buildos_auth_service.Models.{RefreshToken}
use buildos_auth_service.External.{External, IsLawful, Decodes, text}
use buildos_auth_service.Database.{World, IfReturns, IfReturns-map, ok}
use buildos_auth_service.Repositories.Token.{has_hash}
use buildos_auth_service.Security.TokenValidation.RoundTrip.{
  claims, signed, validate_refresh_token-signed, get_claim-sub, get_claim-context_type,
  get_claim-organization_id, get_claim-membership_id,
}
use buildos_auth_service.Services.Token.{
  Presented, TokenPair, check_refresh, issue_tokens, hash_refresh_token, optional_uuid_claim,
}
use buildos_auth_service.Services.Token.Rotation.{Issued, new_row}

module _ (x : External) (law : IsLawful x) (user_id : ℕ) (context_type : String)
    (organization_id membership_id : Option ℕ) (issued expires d : ℕ) (w : World)
    (decodes : Decodes x (
      claims x TokenType.refresh user_id context_type organization_id membership_id issued expires
        d))
    (past : issued ≤ w.clock) (live : w.clock < expires / 1000000 * 1000000) where
  abbrev its_token : String
  its_token =
      signed x TokenType.refresh user_id context_type organization_id membership_id issued expires d

  optional_uuid_claim-received :
      (invalid : String) (id : Option ℕ)
      → optional_uuid_claim x invalid (Option.map (λ i. text (x.uuid_text i)) id) w ≡ (ok id, w)
  unfolding optional_uuid_claim
  optional_uuid_claim-received invalid none = refl
  optional_uuid_claim-received invalid (some i) = ground (arith, law.parse_uuid-uuid_text i)

  -- A signed refresh token with an active, unexpired row of its user passes the checks.
  check_refresh-signed :
      (at : ℕ) (t : RefreshToken)
      → find (has_hash (hash_refresh_token x its_token)) w.refresh_tokens ≡ some t
      → t.is_revoked ≡ false
      → at < t.expires_at
      → t.user_id ≡ user_id
      → check_refresh x its_token at w ≡ (
        ok (record {
          stored = t;
          user_id = user_id;
          context_type = context_type;
          organization_id = organization_id;
          membership_id = membership_id;
        }),
        w,
      )
  unfolding check_refresh
  check_refresh-signed at t e active unexpired owner = ground (
    arith,
    validate_refresh_token-signed x law TokenType.refresh user_id context_type organization_id
        membership_id issued expires d w decodes past live,
    get_claim-sub x TokenType.refresh user_id context_type organization_id membership_id issued
        expires d,
    get_claim-context_type x TokenType.refresh user_id context_type organization_id membership_id
        issued expires d,
    get_claim-organization_id x TokenType.refresh user_id context_type organization_id membership_id
        issued expires d,
    get_claim-membership_id x TokenType.refresh user_id context_type organization_id membership_id
        issued expires d,
    optional_uuid_claim-received "Token claim 'organization_id' is invalid." organization_id,
    optional_uuid_claim-received "Token claim 'membership_id' is invalid." membership_id,
    law.parse_uuid-uuid_text user_id,
  )

-- `issue_tokens` stores the hash of the token that it signs with its second draw.
abbrev IssuedSigned :
    External
    → ℕ
    → String
    → (organization_id membership_id : Option ℕ) → ℕ
    → World
    → TokenPair
    → World
    → Type 0
IssuedSigned x user_id context_type organization_id membership_id at w pair w' =
    (pair.refresh_token
      ≡ signed x TokenType.refresh user_id context_type organization_id membership_id at
          (at + days x.settings.refresh_token_expire_days) (w.draws + 1))
    × Issued x user_id context_type organization_id membership_id at w pair w'

issue_tokens-IssuedSigned :
    (x : External) (user_id : ℕ) (context_type : String)
    (organization_id membership_id now : Option ℕ) (w : World)
    → IfReturns
        (IssuedSigned x user_id context_type organization_id membership_id
          (or_default now w.clock)
          w)
        (issue_tokens x user_id context_type organization_id membership_id now w)
unfolding issue_tokens
issue_tokens-IssuedSigned x user_id context_type organization_id membership_id now w = ground arith

-- The world after an issue, at a later time.
abbrev after_issue :
    External
    → ℕ
    → String
    → (organization_id membership_id : Option ℕ) → ℕ
    → World
    → ℕ
    → String
    → World
after_issue x user_id context_type organization_id membership_id at w later token = record w {
  refresh_tokens =
      w.refresh_tokens
      ++ new_row x user_id context_type organization_id membership_id at w.clock token
          (w.draws + 1 + 1)
        ∷ [];
  clock = later;
  draws = w.draws + 1 + 1 + 1;
}

-- What the checks of `refresh` should read from the token.
abbrev pub expected :
    External
    → ℕ
    → String
    → (organization_id membership_id : Option ℕ) → ℕ
    → World
    → String
    → Presented
expected x user_id context_type organization_id membership_id at w token = record {
  stored =
      new_row x user_id context_type organization_id membership_id at w.clock token
        (w.draws + 1 + 1);
  user_id = user_id;
  context_type = context_type;
  organization_id = organization_id;
  membership_id = membership_id;
}

module _ (x : External) (law : IsLawful x) (user_id : ℕ) (context_type : String)
    (organization_id membership_id : Option ℕ) (at : ℕ) (w : World) (later : ℕ)
    (decodes : Decodes x (
      claims x TokenType.refresh user_id context_type organization_id membership_id at
        (at + days x.settings.refresh_token_expire_days)
        (w.draws + 1)))
    (past : at ≤ later)
    (live : later < (at + days x.settings.refresh_token_expire_days) / 1000000 * 1000000) where
  -- The checks, on the token that was signed.
  check_refresh-after_issue :
      (token : String)
      → token
        ≡ signed x TokenType.refresh user_id context_type organization_id membership_id at
            (at + days x.settings.refresh_token_expire_days)
            (w.draws + 1)
      → find (has_hash (x.sha256_hex token)) w.refresh_tokens ≡ none
      → let w' =
          after_issue x user_id context_type organization_id membership_id at w later token in
        check_refresh x token later w'
        ≡ (ok (expected x user_id context_type organization_id membership_id at w token), w')
  unfolding hash_refresh_token find
  check_refresh-after_issue token e unseen =
      let w' : World =
        after_issue x user_id context_type organization_id membership_id at w later token in
      let new : RefreshToken =
        new_row x user_id context_type organization_id membership_id at w.clock token
          (w.draws + 1 + 1) in
      let found : find (has_hash (x.sha256_hex token)) w'.refresh_tokens ≡ some new =
        rw
          (
            find-append (has_hash (x.sha256_hex token)) w.refresh_tokens (new ∷ []),
            unseen,
            str_eq_self (x.sha256_hex token),
          )
          refl in
      subst
        (λ t.
          find (has_hash (hash_refresh_token x t)) w'.refresh_tokens ≡ some new
          → check_refresh x t later w'
            ≡ (ok (expected x user_id context_type organization_id membership_id at w token), w'))
        (sym e)
        (λ f.
          check_refresh-signed x law user_id context_type organization_id membership_id at
            (at + days x.settings.refresh_token_expire_days) (w.draws + 1) w' decodes past live
            later new f refl (omega arith) refl)
        found

-- If `issue_tokens` returns, its refresh token passes the checks of `refresh` from then on
-- until it expires (at a whole second), and the checks read its own row, user and scope. It needs
-- that pyjwt decodes the token's payload and that UUIDs read back.
pub issue_tokens-check_refresh :
    (x : External) (law : IsLawful x) (user_id : ℕ) (context_type : String)
    (organization_id membership_id now : Option ℕ) (w : World) (later : ℕ)
    → Decodes x (
        claims x TokenType.refresh user_id context_type organization_id membership_id
          (or_default now w.clock)
          (or_default now w.clock + days x.settings.refresh_token_expire_days)
          (w.draws + 1))
    → or_default now w.clock ≤ later
    → later
      < (or_default now w.clock + days x.settings.refresh_token_expire_days) / 1000000 * 1000000
    → IfReturns
        (λ pair w'. check_refresh x pair.refresh_token later (record w' { clock = later }) ≡ (
          ok (
              expected x user_id context_type organization_id membership_id
                (or_default now w.clock)
                w
                pair.refresh_token),
          record w' { clock = later },
        ))
        (issue_tokens x user_id context_type organization_id membership_id now w)
issue_tokens-check_refresh x law user_id context_type organization_id membership_id now w later
      decodes past live =
    IfReturns-map
      (IssuedSigned x user_id context_type organization_id membership_id (or_default now w.clock) w)
      _ (issue_tokens x user_id context_type organization_id membership_id now w)
      (λ pair w' h.
        subst
          (λ v. check_refresh x pair.refresh_token later (record v { clock = later }) ≡ (
            ok (
                expected x user_id context_type organization_id membership_id
                  (or_default now w.clock) w pair.refresh_token),
            record v { clock = later },
          ))
          (sym h.1.0)
          (check_refresh-after_issue x law user_id context_type organization_id membership_id
            (or_default now w.clock) w later decodes past live pair.refresh_token h.0 h.1.1))
      (issue_tokens-IssuedSigned x user_id context_type organization_id membership_id now w)
