-- ===== src/Tests/Telemetry.antt =====
-- observability/: a span, an SDK that fails, and the calls of instrumentors.
use pyfr_m8_verify.Base.{
  Text, codes, ◌∷◌, true, ℕ, some, ◌≡◌, find, text_eq, [], suc, none, All, refl, false, ◌⊎◌, arith,
}
use pyfr_m8_verify.Settings.{production}
use pyfr_m8_verify.Json.{Fields, str, field, get_field, end}
use pyfr_m8_verify.Errors.{ok, raised, other}
use pyfr_m8_verify.Observability.Logging.Event.{
  SpanContext, add_otel_context, set_field, format_hex,
}
use pyfr_m8_verify.Observability.Logging.Event.Correlated.{add_otel_context-ids, IsIdentifier}
use pyfr_m8_verify.Observability.Metrics.{Sdk, RuntimeMetrics, stop, was_cancelled}
use pyfr_m8_verify.Observability.Metrics.Stopped.{stop-Outcome, Outcome}
use pyfr_m8_verify.Observability.Otel.{Providers, Resource, simple_span_processor, injected_reader}
use pyfr_m8_verify.Observability.Otel.Instrument.{Process}
use pyfr_m8_verify.Observability.Otel.Instrument.Agreed.{
  steps-Saw, Saw, steps, of_redis, of_fastapi,
}
use pyfr_m8_verify.Observability.Slo.{excluded_routes_pattern}
use pyfr_m8_verify.Settings.Numbers.{infinite}

abbrev span : SpanContext
span = record { is_valid = true; trace_id = 48879; span_id = 255 }

abbrev event : Fields
event = field (codes "event") (str (codes "started")) end

-- 48879 is beef.
trace_id_test :
    get_field (codes "trace_id") (add_otel_context span event)
    ≡ some (str (codes "0000000000000000000000000000beef"))
unfolding add_otel_context get_field set_field format_hex text_eq
trace_id_test = refl

add_otel_context-ids_example :
    ((true ≡ true)
      × IsIdentifier 32 48879 (get_field (codes "trace_id") (add_otel_context span event))
      × IsIdentifier 16 255 (get_field (codes "span_id") (add_otel_context span event))
      × ((key : Text)
          → text_eq (codes "trace_id") key ≡ false
          → text_eq (codes "span_id") key ≡ false
          → get_field key (add_otel_context span event) ≡ get_field key event))
    ⊎ ((true ≡ false) × (add_otel_context span event ≡ event))
add_otel_context-ids_example = add_otel_context-ids span event (omega arith) (omega arith)

-- An SDK on a world that counts its calls, in which the instrumentor cannot be undone.
abbrev sdk : Sdk ℕ
sdk = record {
  create_info_gauge = λ name observations s. (ok tt, suc s);
  create_pool_gauge = λ name observe s. (ok tt, suc s);
  log_skipped = λ name s. (ok tt, suc s);
  instrument = λ config s. (ok tt, suc s);
  uninstrument = λ s. (raised other, suc s);
  create_histogram = λ name s. (ok tt, suc s);
  create_task = λ s. (ok 7, suc s);
  cancel_and_wait = λ task s. (ok was_cancelled, suc s);
  log_probe_died = λ e s. (ok tt, suc s);
  record_lag = λ lag s. (raised other, suc s);
  log_record_failed = λ e s. (ok tt, suc s);
}

abbrev metrics : RuntimeMetrics
metrics = record { probe_task = some 7; instrumented = true }

stop_test :
    stop sdk (metrics, 0) ≡ (raised other, (record { probe_task = none; instrumented = true }, 2))
unfolding stop
stop_test = refl

stop-Outcome_example : Outcome sdk metrics 0 (stop sdk (metrics, 0))
stop-Outcome_example = stop-Outcome sdk metrics 0

abbrev resource : Resource
resource = record {
  service_name = codes "orders";
  service_version = codes "1.0.0";
  deployment_environment = production;
  deployment_environment_name = production;
}

abbrev runtime : Providers
runtime = record {
  tracer_provider = record {
    resource = resource;
    sample_ratio = infinite;
    processor = simple_span_processor 0;
  };
  meter_provider = record { resource = resource; reader = injected_reader 0; views = [] };
  logger_provider = none;
}

-- The operator chose a value. No library says that it is instrumented.
abbrev process : Process
process = record {
  environ = (codes "OTEL_SEMCONV_STABILITY_OPT_IN", codes "http/dup") ∷ [];
  calls = [];
}

steps-Saw_example :
    All
      (Saw (codes "http/dup"))
      (steps (λ p. false) (of_redis runtime ∷ of_fastapi runtime ∷ []) process).calls
unfolding find text_eq
steps-Saw_example = steps-Saw (λ p. false) (of_redis runtime ∷ of_fastapi runtime ∷ []) process refl

excluded_routes_test : excluded_routes_pattern ≡ codes "/healthz|/readyz|/startupz"
unfolding excluded_routes_pattern
excluded_routes_test = refl
