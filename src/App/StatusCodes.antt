-- ===== src/App/StatusCodes.antt =====
-- Each endpoint's status codes, whatever happens.
use buildos_auth_service.Prelude.{
  ◌≡◌, String, Bool, true, false, ◌&&◌, some, [], ◌∷◌, arith, Bool-cases, inl, inr, is_found,
}
use buildos_auth_service.External.{External}
use buildos_auth_service.Database.{World, Result-cases}
use buildos_auth_service.Integrations.Http.{Wire}
use buildos_auth_service.Integrations.Retry.{Retry, IsRetry}
use buildos_auth_service.Api.Dependencies.{get_current_user_context}
use buildos_auth_service.Api.Errors.Classes.{one_of}
use buildos_auth_service.App.Routes.{route_of}
use buildos_auth_service.App.Call.{Call, change_password, accepts, endpoint_of, token_of}
use buildos_auth_service.App.Answer.{Framework, IsFramework, answered, identity, me_response}
use buildos_auth_service.App.Serve.{refuse, serve}
use buildos_auth_service.App.Endpoints.{
  status_codes, codes_of, stored_texts_fit, over_clients, answer-one_of, run-one_of,
}
use buildos_auth_service.App.Statuses.{get_current_user_context-among}

module _ (x : External) (framework : Framework) (law : IsFramework framework) (wire : Wire)
    (retry : Retry) (retrying : IsRetry retry) where
  token_refused-one_of :
      (token : String) (w : World)
      → one_of
          (refuse (over_clients x framework wire retry) (some token) w).0.status_code
          (200 ∷ 401 ∷ 422 ∷ [])
        ≡ true
  unfolding answered
  token_refused-one_of token w = elim (Result-cases (get_current_user_context x token w).0) [
    | inl (c, e) ↦ ground (arith, e, law.unprocessable)
    | inr (error, e) ↦ ground (
      arith,
      e,
      answer-one_of framework law 200 (λ c. identity (me_response c)) (401 ∷ [])
          (get_current_user_context x token w).0 (get_current_user_context-among x token w),
    )
  ]

  refuse-one_of :
      (call : Call) (w : World)
      → accepts call ≡ false
      → one_of
          (refuse (over_clients x framework wire retry) (token_of call) w).0.status_code
          (status_codes (endpoint_of call))
        ≡ true
  unfolding accepts
  refuse-one_of (change_password token current_password new_password ip_address user_agent) w h =
      token_refused-one_of token w
  refuse-one_of call w h = ground (arith, h, law.unprocessable)

  limited-one_of :
      (call : Call)
      → is_found ((route_of (endpoint_of call)).rate) ≡ true
      → one_of framework.rate_exceeded.status_code (status_codes (endpoint_of call)) ≡ true
  limited-one_of call h = ground (arith, h, law.rate_exceeded)

  served-one_of :
      (over_rate : Bool) (call : Call) (w : World)
      → one_of
          (serve (over_clients x framework wire retry) over_rate call w).0.status_code
          (status_codes (endpoint_of call))
        ≡ true
  unfolding serve
  served-one_of over_rate call w = elim (Bool-cases (accepts call)) [
    | inl accepted ↦
        elim (Bool-cases (is_found ((route_of (endpoint_of call)).rate) && over_rate)) [
          | inl over ↦ rw (accepted, over) (limited-one_of call (ground (arith, over)))
          | inr under ↦ rw (accepted, under) (run-one_of x framework law wire retry retrying call w)
        ]
    | inr malformed ↦ rw malformed (refuse-one_of call w malformed)
  ]

  -- Over the two HTTP clients, while no other session is at work, with the documented behaviour of the
  -- retry and FastAPI's and slowapi's documented status codes, the status of each answer is one that
  -- is listed for the endpoint, whatever the limiter and the remote services do; 500 joins the list
  -- where the User-Agent header has more than 1000 characters or the client's address more than 45,
  -- the widths of their columns. A call of an endpoint with a current user has an access token, valid
  -- or not.
  pub serve-status_codes :
      (over_rate : Bool) (call : Call) (w : World)
      → one_of
          (serve (over_clients x framework wire retry) over_rate call w).0.status_code
          (codes_of call)
        ≡ true
  serve-status_codes over_rate call w = elim (Bool-cases (stored_texts_fit call)) [
    | inl fit ↦ rw fit (served-one_of over_rate call w)
    | inr wide ↦ rw wide (ground (arith, served-one_of over_rate call w))
  ]
