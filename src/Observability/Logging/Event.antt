-- ===== src/Observability/Logging/Event.antt =====
-- The processors that a record goes through. Those of structlog are arguments; `lower` is str.lower.
pub mod Correlated
pub mod Masked
use pyfr_m8_verify.Base.{
  Text, List, Option, codes, if◌then◌else◌, ℕ, Bool, text_eq, ltb, [], ◌+◌, suc, ◌-◌, ◌/◌, ◌++◌,
  ◌%◌, ◌∷◌, zero,
}
use pyfr_m8_verify.Json.{Json, str, Fields, field, end}
use pyfr_m8_verify.Observability.Redaction.{redact_sensitive_fields}

-- event_dict[key] = value
unfoldable pub set_field : Text → Json → Fields → Fields
set_field k v end = field k v end
set_field k v (field j w rest) =
    let others = set_field k v rest in if text_eq j k then field j v rest else field j w others

-- The processor of _bind_resource_attributes
unfoldable pub add_resource_attributes :
    (service_name service_version environment : Text) → Fields → Fields
unfolding set_field
add_resource_attributes service_name service_version environment event =
    set_field (codes "deployment.environment") (str environment) (
      set_field (codes "service.version") (str service_version)
        (set_field (codes "service.name") (str service_name) event))

abbrev pub hex_digit : ℕ → ℕ
hex_digit d = if ltb d 10 then b'0' + d else b'a' + (d - 10)

-- format(n, "0<width>x") of a number below 16 ^ width.
unfoldable pub format_hex : ℕ → ℕ → Text
format_hex zero n = []
format_hex (suc width) n = format_hex width (n / 16) ++ (hex_digit (n % 16) ∷ [])

-- OpenTelemetry's identifiers have 128 and 64 bits.
pub record SpanContext : Type 0 where
  pub is_valid : Bool
  pub trace_id : ℕ
  pub span_id : ℕ

-- _add_otel_context
unfoldable pub add_otel_context : SpanContext → Fields → Fields
unfolding set_field format_hex
add_otel_context context event =
    if context.is_valid
    then set_field (codes "span_id") (str (format_hex 16 context.span_id))
        (set_field (codes "trace_id") (str (format_hex 32 context.trace_id)) event)
    else event

-- structlog's processors, of one record.
pub record Structlog : Type 0 where
  pub merge_contextvars : Fields → Fields
  pub add_logger_name : Fields → Fields
  pub add_log_level : Fields → Fields
  pub time_stamper : Fields → Fields
  pub stack_info_renderer : Fields → Fields
  pub dict_tracebacks : Fields → Fields

pub record Resource : Type 0 where
  pub service_name : Text
  pub service_version : Text
  pub environment : Text

-- _shared_processors, one after the other
unfoldable pub shared_processors :
    (Text → Text) → Structlog → Resource → List Text → SpanContext → Fields → Fields
unfolding add_resource_attributes add_otel_context redact_sensitive_fields
shared_processors lower structlog resource redact_names context event =
    let merged = structlog.merge_contextvars event in
    let attributed =
      add_resource_attributes resource.service_name resource.service_version resource.environment
        merged in
    let correlated = add_otel_context context attributed in
    let named = structlog.add_log_level (structlog.add_logger_name correlated) in
    let stamped = structlog.stack_info_renderer (structlog.time_stamper named) in
    redact_sensitive_fields lower redact_names (structlog.dict_tracebacks stamped)
