-- ===== src/Observability.antt =====
-- observability/: the logs, and what is kept out of them, the OpenTelemetry SDK and the metrics.
pub mod Redaction
pub mod Logging
pub mod Slo
pub mod Otel
pub mod Metrics
