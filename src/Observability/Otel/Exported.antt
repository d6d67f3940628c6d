-- ===== src/Observability/Otel/Exported.antt =====
-- Where accepted settings export to.
use pyfr_m8_verify.Base.{
  Text, List, Option, [], ◌++◌, ◌∷◌, ◌≢◌, ◌≡◌, some, false, length, none, if◌then◌else◌, refl, All,
  true, inl, inr, ap, Bool-cases, text_eq, codes,
}
use pyfr_m8_verify.Settings.{Settings, is_missing, new_settings}
use pyfr_m8_verify.Settings.Startup.{new_settings-exports}
use pyfr_m8_verify.Observability.Otel.{
  Exporter, SpanProcessor, MetricReader, LoggerProvider, Providers, Installed, configure_otel,
  build_providers, is_insecure, batch_span_processor, simple_span_processor, periodic_reader,
  injected_reader, or_empty, providers_of, installed, is_some,
}
use pyfr_m8_verify.Errors.{ok, Result, Exception, raised}
use pyfr_m8_verify.Errors.Exec.{Result-cases}

-- The exporters of a runtime: of spans, of metrics, and of logs.
abbrev pub of_spans : SpanProcessor → List Exporter
of_spans (simple_span_processor n) = []
of_spans (batch_span_processor e) = e ∷ []

abbrev pub of_metrics : MetricReader → List Exporter
of_metrics (injected_reader n) = []
of_metrics (periodic_reader e interval) = e ∷ []

abbrev pub of_logs : Option LoggerProvider → List Exporter
of_logs none = []
of_logs (some p) = p.exporter ∷ []

abbrev pub exporters : Providers → List Exporter
exporters r =
    of_spans r.tracer_provider.processor
    ++ (of_metrics r.meter_provider.reader ++ of_logs r.logger_provider)

-- One exporter of spans and one of metrics, and one of logs where these are on, each to the endpoint,
-- which is not empty, and without TLS exactly where its scheme is http.
pub record IsExporting (scheme : Text → Result Text) (t : Settings) (r : Providers) : Type 0 where
  pub endpoint : Text
  pub nonempty : endpoint ≢ []
  pub configured : t.otel.endpoint ≡ some endpoint
  pub scheme_of : Text
  pub reads : scheme endpoint ≡ ok scheme_of
  pub logs : is_some r.logger_provider ≡ t.otel.logs_enabled
  pub count : length (exporters r) ≡ (if t.otel.logs_enabled then 3 else 2)
  pub each :
      All
        (λ e. e ≡ (record { endpoint = endpoint; insecure = text_eq scheme_of (codes "http") }))
        (exporters r)

present : (o : Option Text) → is_missing o ≡ false → (e : Text) × (e ≢ []) × (o ≡ some e)
unfolding is_missing
present none h = cc
present (some []) h = cc
present (some (c ∷ cs)) h = (c ∷ cs, (λ e. cc), refl)

-- The endpoint is there and not empty, and urlsplit raises `e` of it.
pub record IsUnsplit (scheme : Text → Result Text) (t : Settings) (e : Exception) : Type 0 where
  pub endpoint : Text
  pub nonempty : endpoint ≢ []
  pub configured : t.otel.endpoint ≡ some endpoint
  pub raises : scheme endpoint ≡ raised e

insecure-ok :
    (scheme : Text → Result Text) (o : Option Text) (e s : Text)
    → o ≡ some e
    → scheme e ≡ ok s
    → is_insecure scheme (or_empty o) ≡ ok (text_eq s (codes "http"))
unfolding is_insecure
insecure-ok scheme o e s h k = rw (h, k) refl

insecure-raised :
    (scheme : Text → Result Text) (o : Option Text) (e : Text) (x : Exception)
    → o ≡ some e
    → scheme e ≡ raised x
    → is_insecure scheme (or_empty o) ≡ raised x
unfolding is_insecure
insecure-raised scheme o e x h k = rw (h, k) refl

exporting :
    (scheme : Text → Result Text) (t : Settings) (version e s : Text)
    → e ≢ []
    → t.otel.endpoint ≡ some e
    → scheme e ≡ ok s
    → IsExporting scheme t (providers_of t version none none (text_eq s (codes "http")))
unfolding providers_of
exporting scheme t version e s n c k =
    let same : exporter_of t.otel.endpoint ≡ exporter_of (some e) = ap exporter_of c in
    record {
      endpoint = e;
      nonempty = n;
      configured = c;
      scheme_of = s;
      reads = k;
      logs = elim (Bool-cases t.otel.logs_enabled) [ inl l ↦ rw l refl | inr l ↦ rw l refl ];
      count = elim (Bool-cases t.otel.logs_enabled) [ inl l ↦ rw l refl | inr l ↦ rw l refl ];
      each = elim (Bool-cases t.otel.logs_enabled) [
        | inl l ↦ rw l (same, (same, (same, tt)))
        | inr l ↦ rw l (same, (same, tt))
      ];
    }
  where
    exporter_of : Option Text → Exporter
    exporter_of endpoint = record {
      endpoint = or_empty endpoint;
      insecure = text_eq s (codes "http");
    }

-- What configure_otel does of accepted settings, by whether telemetry is on.
pub data IsConfigured (scheme : Text → Result Text) (t : Settings)
    (r : Result (Option Providers × List Installed)) : Type 0 where
  off : t.otel.enabled ≡ false → r ≡ ok (none, []) → IsConfigured scheme t r
  exports :
      (p : Providers)
      → t.otel.enabled ≡ true
      → IsExporting scheme t p
      → r ≡ ok (some p, installed p)
      → IsConfigured scheme t r
  unsplit :
      (e : Exception)
      → t.otel.enabled ≡ true
      → IsUnsplit scheme t e
      → r ≡ raised e
      → IsConfigured scheme t r

-- Of settings that are accepted: with telemetry off nothing is built and nothing installed. With it on
-- and an endpoint that urlsplit can split, there are providers that export to that endpoint, traces and
-- metrics and, where they are on, logs, and exactly these are installed. An endpoint that urlsplit
-- cannot split, which the settings accept, makes it raise what urlsplit raises.
pub configure_otel-IsExporting :
    (query_names : Text → List Text) (scheme : Text → Result Text) (s t : Settings) (version : Text)
    → new_settings query_names s ≡ ok t
    → IsConfigured scheme t (configure_otel scheme t version)
unfolding configure_otel build_providers
configure_otel-IsExporting query_names scheme s t version h =
    elim (new_settings-exports query_names s t h) [
      | inl e ↦ off e.0 (rw e.0 refl)
      | inr e ↦ enabled e.0 (present t.otel.endpoint e.1)
    ]
  where
    enabled :
        t.otel.enabled ≡ true
        → ((e : Text) × (e ≢ []) × (t.otel.endpoint ≡ some e))
        → IsConfigured scheme t (configure_otel scheme t version)
    enabled on (e, n, c) = elim (Result-cases (scheme e)) [
      | inl (x, k) ↦
          exports (providers_of t version none none (text_eq x (codes "http"))) on
            (exporting scheme t version e x n c k)
            (rw (on, insecure-ok scheme t.otel.endpoint e x c k) refl)
      | inr (x, k) ↦
          unsplit x on (record { endpoint = e; nonempty = n; configured = c; raises = k })
            (rw (on, insecure-raised scheme t.otel.endpoint e x c k) refl)
    ]
