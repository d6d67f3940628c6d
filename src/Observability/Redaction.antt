-- ===== src/Observability/Redaction.antt =====
-- observability/redaction.py: masking of fields by the name of their key. `str.lower`
-- and the attributes of a bare record, `_STDLIB_RECORD_ATTRIBUTES`, are arguments.
pub mod Masking
pub mod Filter
use pyfr_m8_verify.Json.{
  Json, str, boolean, Fields, number, arr, obj, Items, cons, field, null, nil, end,
}
use pyfr_m8_verify.Base.{
  Text, ◌∷◌, List, codes, if◌then◌else◌, Bool, ◌==◌, false, map, text_eq, [], ◌||◌, contains,
}

abbrev pub redacted : Json
redacted = str (codes "[REDACTED]")

unfoldable pub underscored : Text → Text
underscored [] = []
underscored (c ∷ cs) = (if c == b'-' then b'_' else c) ∷ underscored cs

module _ (lower : Text → Text) where
  unfoldable pub normalise : Text → Text
  unfolding underscored
  normalise key = lower (underscored key)

  unfoldable pub matches : List Text → Text → Bool
  unfolding contains normalise
  matches names key = contains (normalise key) names

  unfoldable mutual
    pub redact_value : List Text → Json → Json
    redact_value names null = null
    redact_value names (boolean b) = boolean b
    redact_value names (number n) = number n
    redact_value names (str t) = str t
    redact_value names (arr items) = arr (redact_items names items)
    redact_value names (obj fields) = obj (redact_fields names fields)

    pub redact_items : List Text → Items → Items
    redact_items names nil = nil
    redact_items names (cons v rest) = cons (redact_value names v) (redact_items names rest)

    pub redact_fields : List Text → Fields → Fields
    redact_fields names end = end
    redact_fields names (field key v rest) =
        field key (if matches names key then redacted else redact_value names v)
          (redact_fields names rest)

  -- The processor that `make_redactor` returns: the same rule over the event's own entries.
  unfoldable pub redact_sensitive_fields : List Text → Fields → Fields
  redact_sensitive_fields field_names event = redact_fields (map normalise field_names) event

  -- RedactingFilter.filter: the attributes of a record in their order, each one masked in place but for
  -- those that every record of the standard library has.
  unfoldable pub filter_record : List Text → List Text → Fields → Fields
  filter_record stdlib_attributes names end = end
  filter_record stdlib_attributes names (field key value rest) =
      let others = filter_record stdlib_attributes names rest in
      if contains key stdlib_attributes
      then field key value others
      else field key (if matches names key then redacted else redact_value names value) others

  -- RedactingFilter(field_names).filter(record)
  unfoldable pub redacting_filter : List Text → List Text → Fields → Fields
  unfolding filter_record
  redacting_filter stdlib_attributes field_names attributes =
      filter_record stdlib_attributes (map normalise field_names) attributes
