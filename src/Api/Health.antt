-- ===== src/Api/Health.antt =====
-- app/api/health.py. The `except` clause of the readiness probe names socket errors, which httpx
-- raises as errors of its own; `check_health` reads those as unhealthy.
use buildos_auth_service.Prelude.{ℕ, String, Bool, if◌then◌else◌}
use buildos_auth_service.External.{External}
use buildos_auth_service.Database.{Result, ok}
use buildos_auth_service.Integrations.Http.{Wire}
use buildos_auth_service.Integrations.Answer.{◌>>=◌}
use buildos_auth_service.Integrations.UserService.Status.{check_health}

pub record HealthResponse : Type 0 where
  pub status_code : ℕ
  pub status : String
  pub service : String

unfoldable pub health : External → HealthResponse
health x = record { status_code = 200; status = "ok"; service = x.settings.service_name }

pub record ReadinessResponse : Type 0 where
  pub status_code : ℕ
  pub status : String
  pub service : String
  pub user_service : String

abbrev readiness_response : External → Bool → ReadinessResponse
readiness_response x healthy = record {
  status_code = if healthy then 200 else 503;
  status = if healthy then "ready" else "not_ready";
  service = x.settings.service_name;
  user_service = if healthy then "ok" else "unhealthy";
}

-- An IntegrationError of the headers leaves it.
unfoldable pub readiness : External → Wire → Result ReadinessResponse
unfolding check_health
readiness x wire = do healthy ← check_health x wire; ok (readiness_response x healthy)
