-- ===== src/Services/Token/Credentials.antt =====
-- What a refresh has to do with the stored credentials.
use buildos_auth_service.Prelude.{ℕ, ◌≡◌, ap, ◌∙◌, String, Option, some, List, or_default, arith}
use buildos_auth_service.Models.{AuthCredential}
use buildos_auth_service.External.{External}
use buildos_auth_service.Database.{World, Action, Result, ok, err, ◌>>=◌}
use buildos_auth_service.Services.Token.{
  Presented, TokenPair, check_refresh, issue_tokens, retire_presented, rotate_presented, refresh,
}

-- The action does not read the credentials and leaves them as they are.
module _ (credentials : List AuthCredential) where
  abbrev pub swapped : World → World
  swapped w = record w { credentials = credentials }

  abbrev pub IsBlind {ℓ} : {A : Type ℓ} → Action A → Type ℓ
  IsBlind m = (w : World) → m (swapped w) ≡ ((m w).0, swapped (m w).1)

  bind-IsBlind {ℓ κ} :
      {A : Type ℓ} {B : Type κ} (m : Action A) (f : A → Action B)
      → IsBlind m
      → ((a : A) → IsBlind (f a))
      → IsBlind (m >>= f)
  bind-IsBlind {A = A} {B = B} m f blind each w = go (m w) (m (swapped w)) (blind w)
    where
      next : Result A × World → Result B × World
      next r = elim r.0 [ ok a ↦ f a r.1 | err e ↦ (err e, r.1) ]

      go :
          (r r' : Result A × World)
          → r' ≡ (r.0, swapped r.1)
          → next r' ≡ ((next r).0, swapped (next r).1)
      go (ok a, v) r' e = ap next e ∙ each a v
      go (err x, v) r' e = ap next e

  module _ (x : External) where
    check_refresh-IsBlind : (token : String) (at : ℕ) → IsBlind (check_refresh x token at)
    unfolding check_refresh
    check_refresh-IsBlind token at w = ground arith

    issue_tokens-IsBlind :
        (user_id : ℕ) (context_type : String) (organization_id membership_id now : Option ℕ)
        → IsBlind (issue_tokens x user_id context_type organization_id membership_id now)
    unfolding issue_tokens
    issue_tokens-IsBlind user_id context_type organization_id membership_id now w = ground arith

    retire_presented-IsBlind :
        (c : Presented) (ip_address user_agent : Option String) (at : ℕ) (pair : TokenPair)
        → IsBlind (retire_presented x c ip_address user_agent at pair)
    unfolding retire_presented
    retire_presented-IsBlind c ip_address user_agent at pair w = ground arith

    -- A refresh neither reads nor changes the stored credentials: with any others in their place, an
    -- inactive or a locked one among them, it has the same result and the same effect.
    pub refresh-IsBlind :
        (token : String) (ip_address user_agent : Option String) (now : Option ℕ)
        → IsBlind (refresh x token ip_address user_agent now)
    unfolding refresh rotate_presented
    refresh-IsBlind token ip_address user_agent now w =
        let at = or_default now w.clock in
        bind-IsBlind (check_refresh x token at) (λ c. rotate_presented x c ip_address user_agent at)
          (check_refresh-IsBlind token at)
          (λ c.
            bind-IsBlind
              (issue_tokens x c.user_id c.context_type c.organization_id c.membership_id (some at))
              (retire_presented x c ip_address user_agent at)
              (issue_tokens-IsBlind c.user_id c.context_type c.organization_id c.membership_id
                (some at))
              (λ pair. retire_presented-IsBlind c ip_address user_agent at pair))
          w
