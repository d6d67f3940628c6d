-- ===== src/Observability/Otel/Instrument.antt =====
-- The calls of the instrumentors, in a process with its environment variables.
pub mod Agreed
use pyfr_m8_verify.Base.{
  Text, List, Option, Bool, codes, none, some, find, assign, ◌∷◌, if◌then◌else◌,
}
use pyfr_m8_verify.Infrastructure.Clients.{AsyncEngine, AsyncClient}
use pyfr_m8_verify.Observability.Otel.{TracerProvider, MeterProvider, Providers}

pub data Call : Type 0 where
  instrument_app : TracerProvider → MeterProvider → (excluded_urls : Text) → Call
  instrument_engine : AsyncEngine → TracerProvider → Call
  instrument_client : AsyncClient → TracerProvider → Call
  instrument_redis_library : TracerProvider → Call

-- `calls` has each call with the value that the variable of the conventions had then.
pub record Process : Type 0 where
  pub environ : List (Text × Text)
  pub calls : List (Call × Option Text)

-- _STABLE_SEMCONV_ENV_VAR, _STABLE_SEMCONV_VALUE, _UNTRACED_PATHS
abbrev pub stable_semconv_env_var : Text
stable_semconv_env_var = codes "OTEL_SEMCONV_STABILITY_OPT_IN"

abbrev pub stable_semconv_value : Text
stable_semconv_value = codes "http"

abbrev pub untraced_paths : Text
untraced_paths = codes "healthz,readyz,startupz"

abbrev pub set_default : Text → Text → Option Text → List (Text × Text) → List (Text × Text)
set_default k v none environ = assign k v environ
set_default k v (some held) environ = environ

-- _opt_in_to_stable_semconv
unfoldable pub opt_in_to_stable_semconv : Process → Process
unfolding find assign
opt_in_to_stable_semconv p = record p {
  environ =
      set_default stable_semconv_env_var stable_semconv_value
        (find stable_semconv_env_var p.environ) p.environ;
}

abbrev pub called : Call → Process → Process
called c p = record p { calls = (c, find stable_semconv_env_var p.environ) ∷ p.calls }

unfoldable pub instrument_fastapi : Providers → Process → Process
unfolding opt_in_to_stable_semconv
instrument_fastapi runtime p =
    called (instrument_app runtime.tracer_provider runtime.meter_provider untraced_paths)
      (opt_in_to_stable_semconv p)

unfoldable pub instrument_database : AsyncEngine → Providers → Process → Process
unfolding opt_in_to_stable_semconv
instrument_database engine runtime p =
    called (instrument_engine engine runtime.tracer_provider) (opt_in_to_stable_semconv p)

unfoldable pub instrument_http_client : AsyncClient → Providers → Process → Process
unfolding opt_in_to_stable_semconv
instrument_http_client client runtime p =
    called (instrument_client client runtime.tracer_provider) (opt_in_to_stable_semconv p)

-- `instrumented` is what the library says of itself, `is_instrumented_by_opentelemetry`.
unfoldable pub instrument_redis : (instrumented : Process → Bool) → Providers → Process → Process
instrument_redis instrumented runtime p =
    if instrumented p then p else called (instrument_redis_library runtime.tracer_provider) p
