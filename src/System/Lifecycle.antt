-- ===== src/System/Lifecycle.antt =====
-- The life of a refresh token as a state machine, and the service as an implementation of it.
use buildos_auth_service.Prelude.{
  ◌≡◌, ◌∙◌, sym, String, Bool, true, false, Option, none, some, List, [], ◌∷◌, find, select,
  rows_of, select-distinct, eq_iff, arith, Bool-cases, inl, inr, if◌then◌else◌, ◌||◌, refl, ap,
}
use buildos_auth_service.Models.{RefreshToken}
use buildos_auth_service.External.{External}
use buildos_auth_service.Database.{World}
use buildos_auth_service.Repositories.Token.{has_hash}
use buildos_auth_service.Services.UserDirectory.{UserDirectory}
use buildos_auth_service.Api.Auth.{CreateSession}
use buildos_auth_service.System.{CreateUser, Request, handle_all}
use buildos_auth_service.System.Kept.Requests.{handle_all_keeps}
use buildos_auth_service.System.Past.{is_past, is_past-IsKept}
use buildos_auth_service.System.Uniqueness.{unique, unique-IsKept}

-- What the table has of a token: it has not been issued, it has one row, which is active or revoked,
-- or it has been issued more than once, which is no state of the machine's.
pub data TokenState : Type 0 where
  unissued active revoked duplicated : TokenState

-- The steps of the machine: a token is issued, and an active one is rotated or revoked.
pub data Step : TokenState → TokenState → Type 0 where
  issue : Step unissued active
  retire : Step active revoked

-- Any number of steps.
pub data Steps : TokenState → TokenState → Type 0 where
  stay : (s : TokenState) → Steps s s
  step : {s t u : TokenState} → Step s t → Steps t u → Steps s u

abbrev row_state : RefreshToken → TokenState
row_state t = if t.is_revoked then revoked else active

abbrev rows_state : List RefreshToken → TokenState
rows_state [] = unissued
rows_state (t ∷ []) = row_state t
rows_state (t ∷ u ∷ rest) = duplicated

-- The state of the token with the hash, by all the rows that have it.
abbrev pub token_state : String → World → TokenState
token_state hash w = rows_state (select (has_hash hash) w.refresh_tokens)

abbrev state_of : Option RefreshToken → TokenState
state_of found = rows_state (rows_of found)

-- What is asked of the row, as `is_past` does.
abbrev row_past : Bool → Option RefreshToken → Bool
row_past any none = false
row_past any (some t) = any || t.is_revoked

-- A row that is not lost and a flag that is not reset make steps of the machine.
row-Steps :
    (before after : Option RefreshToken)
    → (row_past true before ≡ true → row_past true after ≡ true)
    → (row_past false before ≡ true → row_past false after ≡ true)
    → Steps (state_of before) (state_of after)
row-Steps none none kept flag = stay unissued
row-Steps none (some t) kept flag = elim (Bool-cases t.is_revoked) [
  | inl gone ↦ rw gone (step issue (step retire (stay revoked)))
  | inr live ↦ rw live (step issue (stay active))
]
row-Steps (some s) none kept flag = absurd (ground (arith, kept refl))
row-Steps (some s) (some t) kept flag = elim (Bool-cases s.is_revoked) [
  | inl gone ↦ rw (gone, flag gone) (stay revoked)
  | inr live ↦ elim (Bool-cases t.is_revoked) [
    | inl ended ↦ rw (live, ended) (step retire (stay revoked))
    | inr still ↦ rw (live, still) (stay active)
  ]
]

same_hash :
    (hash : String) (s t : RefreshToken)
    → has_hash hash s ≡ true
    → has_hash hash t ≡ true
    → has_hash t.token_hash s ≡ true
same_hash hash s t h g =
    (eq_iff s.token_hash t.token_hash).1
      ((eq_iff s.token_hash hash).0 h ∙ sym ((eq_iff t.token_hash hash).0 g))

-- Where the hashes are pairwise different, the first row with one is the only one.
token_state-state_of :
    (hash : String) (w : World)
    → unique w ≡ true
    → token_state hash w ≡ state_of (find (has_hash hash) w.refresh_tokens)
token_state-state_of hash w keys = ap rows_state (
    select-distinct has_hash (λ t. t.token_hash) hash w.refresh_tokens (same_hash hash)
      (ground (arith, keys)))

module _ (x : External) (users : UserDirectory) (create_session : CreateSession)
    (create_user : CreateUser) where
  -- While the unique columns have no value twice, whatever the requests and their order, the rows of
  -- each refresh token hash implement the machine: between two states of the service lie only its
  -- steps, so a hash never has a second row, what is revoked stays so, and no row is lost.
  pub handle_all-Steps :
      (hash : String) (requests : List Request) (w : World)
      → unique w ≡ true
      → Steps
          (token_state hash w)
          (token_state hash (handle_all x users create_session create_user requests w))
  handle_all-Steps hash requests w keys =
      let w' = handle_all x users create_session create_user requests w in
      let keys' : unique w' ≡ true =
        handle_all_keeps x users create_session create_user (λ v. unique v ≡ true) (unique-IsKept x)
          requests w keys in
      rw (token_state-state_of hash w keys, token_state-state_of hash w' keys')
        (row-Steps (find (has_hash hash) w.refresh_tokens) (find (has_hash hash) w'.refresh_tokens)
          (λ here.
            handle_all_keeps x users create_session create_user (λ v. is_past true hash v ≡ true)
              (is_past-IsKept x true hash) requests w here)
          (λ spent.
            handle_all_keeps x users create_session create_user (λ v. is_past false hash v ≡ true)
              (is_past-IsKept x false hash) requests w spent))
