-- ===== src/App/Reach.antt =====
-- Which endpoint the application reaches by which method and path.
use mathlib.Core.Option
use buildos_auth_service.Prelude.{
  ◌≡◌, ◌↔◌, All, All-implied, ap, ◌||◌, refl, subst, sym, ◌∙◌, inl, inr, Option-cases, eq_iff,
  every-find, find-passes, String, Bool, true, false, not, ◌&&◌, Option, none, some, List, str_eq,
  find, every, contains, arith,
}
use buildos_auth_service.App.Routes.{
  Method, get, post, Endpoint, health, readiness, register, login, me, logout, check_availability,
  change_password, request_password_reset, confirm_password_reset, refresh_token, revoke_token,
  update_user_status, Route, create_application,
}

abbrev pub method_eq : Method → Method → Bool
method_eq get get = true
method_eq post post = true
method_eq _ _ = false

abbrev pub matches : Method → String → Route → Bool
matches method path r = method_eq r.method method && str_eq r.path path

-- The path has no parameter.
abbrev pub is_static : Route → Bool
is_static r = not (contains r.path "{")

-- What FastAPI documents of the choice of a route, where no path has a parameter: the first one with
-- the method and the path.
pub record IsDispatch (dispatch : List Route → Method → String → Option Endpoint) : Type 0 where
  pub first :
      (routes : List Route) (method : Method) (path : String)
      → every is_static routes ≡ true
      → dispatch routes method path
        ≡ Option.map (λ r. r.endpoint) (find (matches method path) routes)

pub record Url : Type 0 where
  pub method : Method
  pub path : String

-- docs/api/AUTH_API_CONTRACT.md: where each of the eight endpoints that it lists is to be reached.
abbrev pub url : Endpoint → Option Url
url register = some (record { method = post; path = "/api/v1/auth/register" })
url login = some (record { method = post; path = "/api/v1/auth/login" })
url logout = some (record { method = post; path = "/api/v1/auth/logout" })
url change_password = some (record { method = post; path = "/api/v1/password/change" })
url request_password_reset =
    some (record { method = post; path = "/api/v1/password/reset/request" })
url confirm_password_reset =
    some (record { method = post; path = "/api/v1/password/reset/confirm" })
url refresh_token = some (record { method = post; path = "/api/v1/token/refresh" })
url revoke_token = some (record { method = post; path = "/api/v1/token/revoke" })
url _ = none

-- The endpoints of the application that the contract does not list: the probes, the current user and
-- the availability of names.
abbrev pub is_unlisted : Endpoint → Bool
is_unlisted health = true
is_unlisted readiness = true
is_unlisted me = true
is_unlisted check_availability = true
is_unlisted _ = false

abbrev pub is_at : Method → String → Option Url → Bool
is_at method path none = false
is_at method path (some u) = method_eq u.method method && str_eq u.path path

abbrev placed : Route → Bool
placed r = is_unlisted r.endpoint || is_at r.method r.path (url r.endpoint)

method_eq-equal : (a b : Method) → method_eq a b ≡ true → a ≡ b
method_eq-equal get get h = refl
method_eq-equal get post h = absurd (ground (arith, h))
method_eq-equal post get h = absurd (ground (arith, h))
method_eq-equal post post h = refl

create_application-placed : every placed create_application ≡ true
unfolding every create_application
create_application-placed = refl

create_application-static : every is_static create_application ≡ true
unfolding every create_application
create_application-static = refl

-- The endpoint that the first route with the method and the path has.
abbrev found : Method → String → Option Endpoint
found method path = Option.map (λ r. r.endpoint) (find (matches method path) create_application)

IsFound : Endpoint → Option Url → Type 0
IsFound e none = Unit
IsFound e (some u) = found u.method u.path ≡ some e

each-IsFound : (e : Endpoint) → IsFound e (url e)
unfolding IsFound find create_application
each-IsFound health = tt
each-IsFound readiness = tt
each-IsFound register = refl
each-IsFound login = refl
each-IsFound me = tt
each-IsFound logout = refl
each-IsFound check_availability = tt
each-IsFound change_password = refl
each-IsFound request_password_reset = refl
each-IsFound confirm_password_reset = refl
each-IsFound refresh_token = refl
each-IsFound revoke_token = refl
each-IsFound update_user_status = tt

found_at :
    (method : Method) (path : String) (e : Endpoint) (place : Option Url)
    → IsFound e place
    → is_at method path place ≡ true
    → found method path ≡ some e
unfolding IsFound
found_at method path e none here h = absurd (ground (arith, h))
found_at method path e (some u) here h =
    subst (λ p. found method p ≡ some e) ((eq_iff u.path path).0 (ground (arith, h)))
      (subst (λ m. found m u.path ≡ some e) (method_eq-equal u.method method (ground (arith, h)))
        here)

at_found :
    (method : Method) (path : String) (e : Endpoint)
    → is_unlisted e ≡ false
    → found method path ≡ some e
    → is_at method path (url e) ≡ true
at_found method path e listed h =
    elim (Option-cases (find (matches method path) create_application)) [
      | inl missing ↦ absurd (ground (arith, h, missing))
      | inr (r, hit) ↦
          let chosen = find-passes (matches method path) create_application hit in
          let same : r.endpoint ≡ e = ground (arith, h, hit) in
          let passed =
            every-find placed (matches method path) create_application r create_application-placed
              hit in
          let place : is_at r.method r.path (url r.endpoint) ≡ true =
            ground (arith, passed, listed, ap is_unlisted same) in
          subst (λ e'. is_at method path (url e') ≡ true) same
            (subst (λ p. is_at method p (url r.endpoint) ≡ true)
              ((eq_iff r.path path).0 (ground (arith, chosen)))
              (subst (λ m. is_at m r.path (url r.endpoint) ≡ true)
                (method_eq-equal r.method method (ground (arith, chosen))) place))
    ]

-- Each route is found by its own method and path: none is hidden by another one before it.
create_application-reached : All (λ r. found r.method r.path ≡ some r.endpoint) create_application
unfolding create_application find
create_application-reached = (
  refl,
  (refl, (refl, (refl, (refl, (refl, (refl, (refl, (refl, (refl, (refl, (refl, tt))))))))))),
)

-- With the documented choice of the first route that fits: a method and a path reach an endpoint that
-- the contract lists exactly if they are its place by the contract, and the internal status endpoint
-- by no method and path; and each route of the application, of the unlisted endpoints too, is reached
-- by its own method and path.
pub create_application-url :
    (dispatch : List Route → Method → String → Option Endpoint) (law : IsDispatch dispatch)
    (method : Method) (path : String) (e : Endpoint)
    → is_unlisted e ≡ false
    → ((dispatch create_application method path ≡ some e) ↔ (is_at method path (url e) ≡ true))
      × All (λ r. dispatch create_application r.method r.path ≡ some r.endpoint) create_application
create_application-url dispatch law method path e listed =
    let chosen = law.first create_application method path create_application-static in
    (
      (
        (λ h. at_found method path e listed (sym chosen ∙ h)),
        (λ h. chosen ∙ found_at method path e (url e) (each-IsFound e) h),
      ),
      All-implied (λ r. found r.method r.path ≡ some r.endpoint)
          (λ r. dispatch create_application r.method r.path ≡ some r.endpoint) create_application
          (λ r own. law.first create_application r.method r.path create_application-static ∙ own)
          create_application-reached,
    )
