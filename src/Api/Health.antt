-- ===== src/Api/Health.antt =====
-- api/health.py: liveness, readiness and startup. The version of the package is an argument.
pub mod Gating
use pyfr_m8_verify.Base.{ℕ, Text, List, codes, if◌then◌else◌}
use pyfr_m8_verify.Container.Readiness.{ReadinessReport, healthy, CheckOutcome, run}
use pyfr_m8_verify.Container.{Check, Container}

pub record LivenessResponse : Type 0 where
  pub status_code : ℕ
  pub status : Text
  pub version : Text

pub record ReadinessResponse : Type 0 where
  pub status_code : ℕ
  pub status : Text
  pub checks : List (Text × Text)
  pub dependencies : List (Text × Text)

-- GET /healthz
unfoldable pub liveness : Text → LivenessResponse
liveness version = record { status_code = 200; status = codes "ok"; version = version }

abbrev pub readiness_response : ReadinessReport → ReadinessResponse
readiness_response report = record {
  status_code = if healthy report then 200 else 503;
  status = if healthy report then codes "ok" else codes "unavailable";
  checks = report.gating;
  dependencies = report.informational;
}

-- READINESS_TIMEOUT_SECONDS, in milliseconds
abbrev pub readiness_timeout : ℕ
readiness_timeout = 2000

-- GET /readyz
unfoldable pub readiness : (ℕ → Text) → (Check → CheckOutcome) → Container → ReadinessResponse
readiness float_text answers container =
    readiness_response (run float_text readiness_timeout answers container.readiness)

-- GET /startupz
unfoldable pub startup : Text → Container → LivenessResponse
startup version container = record {
  status_code = if container.started then 200 else 503;
  status = if container.started then codes "ok" else codes "starting";
  version = version;
}
