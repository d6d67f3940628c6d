-- ===== src/Tests/Redaction.antt =====
-- observability/redaction.py and logging.py at a concrete event.
use pyfr_m8_verify.Observability.Logging.Event.{Structlog, Resource, SpanContext, shared_processors}
use pyfr_m8_verify.Observability.Logging.Event.Masked.{shared_processors-FieldsMasked}
use pyfr_m8_verify.Json.{field, end, Fields, obj, str}
use pyfr_m8_verify.Base.{Text, codes, map, ◌∷◌, [], text_eq, ◌≡◌, refl, contains, false}
use pyfr_m8_verify.Observability.Redaction.Masking.{FieldsMasked}
use pyfr_m8_verify.Observability.Redaction.{
  redact_sensitive_fields, redact_fields, normalise, matches, underscored, redacting_filter,
}
use pyfr_m8_verify.Observability.Redaction.Filter.{extras, builtins, redacting_filter-one_rule}

abbrev lower : Text → Text
lower t = t

abbrev event : Fields
event = field (codes "user") (obj (field (codes "password") (str (codes "hunter2")) end)) end

-- The middleware has bound a token.
abbrev structlog : Structlog
structlog = record {
  merge_contextvars = λ e. field (codes "token") (str (codes "t0k3n")) e;
  add_logger_name = λ e. e;
  add_log_level = λ e. e;
  time_stamper = λ e. e;
  stack_info_renderer = λ e. e;
  dict_tracebacks = λ e. e;
}

abbrev resource : Resource
resource = record {
  service_name = codes "orders";
  service_version = codes "1.0.0";
  environment = codes "local";
}

abbrev no_span : SpanContext
no_span = record { is_valid = false; trace_id = 0; span_id = 0 }

shared_processors-FieldsMasked_example :
    FieldsMasked lower
      (map (normalise lower) (codes "token" ∷ []))
      (shared_processors lower structlog resource (codes "token" ∷ []) no_span event)
shared_processors-FieldsMasked_example =
    shared_processors-FieldsMasked lower structlog resource (codes "token" ∷ []) no_span event

redacts :
    redact_sensitive_fields lower (codes "password" ∷ []) event
    ≡ field (codes "user") (obj (field (codes "password") (str (codes "[REDACTED]")) end)) end
unfolding redact_sensitive_fields redact_fields matches normalise underscored contains text_eq
redacts = refl

-- Of a record with a message and one extra attribute.
abbrev attributes : Fields
attributes =
    field (codes "msg") (str (codes "hi")) (field (codes "token") (str (codes "t0k3n")) end)

redacting_filter-one_rule_example :
    (extras
        (codes "msg" ∷ [])
        (redacting_filter lower (codes "msg" ∷ []) (codes "token" ∷ []) attributes)
      ≡ field (codes "token") (str (codes "[REDACTED]")) end)
    × (builtins
          (codes "msg" ∷ [])
          (redacting_filter lower (codes "msg" ∷ []) (codes "token" ∷ []) attributes)
        ≡ field (codes "msg") (str (codes "hi")) end)
unfolding extras builtins redact_sensitive_fields redact_fields matches normalise underscored
    contains text_eq
redacting_filter-one_rule_example =
    redacting_filter-one_rule (codes "msg" ∷ []) lower (codes "token" ∷ []) attributes
