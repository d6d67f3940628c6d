-- ===== src/Observability/Logging/Event/Masked.antt =====
-- Masking comes last.
use pyfr_m8_verify.Base.{Text, List, map}
use pyfr_m8_verify.Json.{Fields}
use pyfr_m8_verify.Observability.Redaction.{normalise}
use pyfr_m8_verify.Observability.Redaction.Masking.{
  FieldsMasked, redact_sensitive_fields-FieldsMasked,
}
use pyfr_m8_verify.Observability.Logging.Event.{Structlog, Resource, SpanContext, shared_processors}

-- Whatever the processors of structlog add to an event, the bound context of a request and the fields of
-- an exception included, and whether the record is the service's own or a library's: when it has gone
-- through all processors, every entry whose normalised key is one of the normalised field names holds
-- the mask, at any depth of nested dicts and lists.
pub shared_processors-FieldsMasked :
    (lower : Text → Text) (structlog : Structlog) (resource : Resource) (field_names : List Text)
    (context : SpanContext) (event : Fields)
    → FieldsMasked lower
        (map (normalise lower) field_names)
        (shared_processors lower structlog resource field_names context event)
unfolding shared_processors
shared_processors-FieldsMasked lower structlog resource field_names context event =
    redact_sensitive_fields-FieldsMasked lower field_names _
