-- ===== src/Observability/Otel.antt =====
-- observability/otel.py: the providers that are built of the settings, their shutdown, and the calls of
-- the instrumentors. `scheme` is `urlsplit(endpoint).scheme`, which may raise; an exporter or a reader that a test puts
-- in is known by a number.
pub mod Exported
pub mod Shutdown
pub mod Instrument
use pyfr_m8_verify.Base.{
  Text, List, Option, Bool, codes, none, some, true, false, ℕ, [], text_eq, if◌then◌else◌, ◌∷◌,
}
use pyfr_m8_verify.Observability.Slo.{http_duration_bucket_boundaries}
use pyfr_m8_verify.Settings.{Settings, OtelSettings, Environment}
use pyfr_m8_verify.Settings.Numbers.{Float, ℤ}
use pyfr_m8_verify.Errors.Exec.{Exec, pure, continue, ◌>>◌, bind_result}
use pyfr_m8_verify.Errors.{ok, Result}

-- build_resource
pub record Resource : Type 0 where
  pub service_name : Text
  pub service_version : Text
  pub deployment_environment : Environment
  pub deployment_environment_name : Environment

unfoldable pub build_resource : Settings → Text → Resource
build_resource settings service_version = record {
  service_name = settings.service_name;
  service_version = service_version;
  deployment_environment = settings.environment;
  deployment_environment_name = settings.environment;
}

pub record Exporter : Type 0 where
  pub endpoint : Text
  pub insecure : Bool

pub data SpanProcessor : Type 0 where
  simple_span_processor : (injected : ℕ) → SpanProcessor
  batch_span_processor : Exporter → SpanProcessor

pub data MetricReader : Type 0 where
  injected_reader : ℕ → MetricReader
  periodic_reader : Exporter → (interval_millis : ℤ) → MetricReader

pub record View : Type 0 where
  pub instrument_name : Text
  pub boundaries : List ℕ

-- build_views, with the boundaries in ten-thousandths of a second
abbrev pub build_views : List View
build_views =
    (record {
      instrument_name = codes "http.server.request.duration";
      boundaries = http_duration_bucket_boundaries;
    })
    ∷ (record {
      instrument_name = codes "event_loop.lag";
      boundaries = 10 ∷ 25 ∷ 50 ∷ 100 ∷ 250 ∷ 500 ∷ 1000 ∷ 2500 ∷ 5000 ∷ 10000 ∷ 25000 ∷ 50000 ∷ [];
    })
    ∷ []

-- The sampler is ParentBased(root=TraceIdRatioBased(sample_ratio)).
pub record TracerProvider : Type 0 where
  pub resource : Resource
  pub sample_ratio : Float
  pub processor : SpanProcessor

pub record MeterProvider : Type 0 where
  pub resource : Resource
  pub reader : MetricReader
  pub views : List View

pub record LoggerProvider : Type 0 where
  pub resource : Resource
  pub exporter : Exporter

pub record Providers : Type 0 where
  pub tracer_provider : TracerProvider
  pub meter_provider : MeterProvider
  pub logger_provider : Option LoggerProvider

pub data Installed : Type 0 where
  set_tracer_provider : TracerProvider → Installed
  set_meter_provider : MeterProvider → Installed
  set_logger_provider : LoggerProvider → Installed

abbrev pub is_some : Option LoggerProvider → Bool
is_some none = false
is_some (some provider) = true

abbrev pub logger_installed : Option LoggerProvider → List Installed
logger_installed none = []
logger_installed (some provider) = set_logger_provider provider ∷ []

abbrev pub or_empty : Option Text → Text
or_empty none = []
or_empty (some t) = t

abbrev pub span_processor : Option ℕ → Exporter → SpanProcessor
span_processor (some injected) exporter = simple_span_processor injected
span_processor none exporter = batch_span_processor exporter

abbrev pub reader_of : Option ℕ → Exporter → ℤ → MetricReader
reader_of (some injected) exporter interval = injected_reader injected
reader_of none exporter interval = periodic_reader exporter interval

-- The providers, once it is known whether the exporters use TLS.
unfoldable pub providers_of : Settings → Text → Option ℕ → Option ℕ → Bool → Providers
unfolding build_resource
providers_of settings service_version injected_exporter injected_metric_reader insecure =
    let endpoint = or_empty settings.otel.endpoint in
    let exporter : Exporter = record { endpoint = endpoint; insecure = insecure } in
    let resource : Resource = build_resource settings service_version in
    record {
      tracer_provider = record {
        resource = resource;
        sample_ratio = settings.otel.sample_ratio;
        processor = span_processor injected_exporter exporter;
      };
      meter_provider = record {
        resource = resource;
        reader = reader_of injected_metric_reader exporter settings.otel.metric_export_interval_ms;
        views = build_views;
      };
      logger_provider =
          if settings.otel.logs_enabled
          then some (record { resource = resource; exporter = exporter })
          else none;
    }

abbrev pub installed : Providers → List Installed
installed r =
    set_tracer_provider r.tracer_provider
    ∷ set_meter_provider r.meter_provider
    ∷ logger_installed r.logger_provider

module _ (scheme : Text → Result Text) where
  -- _is_insecure
  unfoldable pub is_insecure : Text → Result Bool
  unfolding text_eq
  is_insecure endpoint = bind_result (scheme endpoint) λ s. ok (text_eq s (codes "http"))

  -- build_providers
  unfoldable pub build_providers : Settings → Text → Option ℕ → Option ℕ → Result Providers
  unfolding is_insecure providers_of
  build_providers settings service_version injected_exporter injected_metric_reader =
      bind_result (is_insecure (or_empty settings.otel.endpoint)) λ insecure.
        ok (providers_of settings service_version injected_exporter injected_metric_reader insecure)

  -- configure_otel: what is returned, and the calls that install a provider globally.
  unfoldable pub configure_otel : Settings → Text → Result (Option Providers × List Installed)
  unfolding build_providers
  configure_otel settings service_version =
      let configured =
        bind_result (build_providers settings service_version none none)
          λ runtime. ok (some runtime, installed runtime) in
      if settings.otel.enabled then configured else ok (none, [])

-- The calls of one runtime's SDK that flush and close.
pub record Shutdowns (S : Type 0) : Type 0 where
  pub tracer_provider : Exec S (Unit {0})
  pub meter_provider : Exec S (Unit {0})
  pub logger_provider : Option (Exec S (Unit {0}))

abbrev pub shutdown_logger : {S : Type 0} → Option (Exec S (Unit {0})) → Exec S (Unit {0})
shutdown_logger none = pure tt
shutdown_logger (some call) = call

abbrev pub shutdown_all : {S : Type 0} → Shutdowns S → Exec S (Unit {0})
shutdown_all calls = do
  calls.tracer_provider
  calls.meter_provider
  shutdown_logger calls.logger_provider

-- OtelRuntime.shutdown, beside its flag `_shut_down`.
unfoldable pub shutdown : {S : Type 0} → Shutdowns S → Exec (Bool × S) (Unit {0})
shutdown calls (true, s) = (ok tt, (true, s))
shutdown calls (false, s) = let r = shutdown_all calls s in (r.0, (true, r.1))
