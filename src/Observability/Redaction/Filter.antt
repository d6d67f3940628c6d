-- ===== src/Observability/Redaction/Filter.antt =====
-- The filter on records and the processor on events apply one rule.
use pyfr_m8_verify.Base.{List, Text, if◌then◌else◌, ◌≡◌, contains, map, Bool-cases, inl, inr, refl}
use pyfr_m8_verify.Json.{Fields, field, end}
use pyfr_m8_verify.Observability.Redaction.{
  filter_record, redacting_filter, redact_value, redact_sensitive_fields, redact_fields, normalise,
}

module _ (stdlib_attributes : List Text) where
  -- The attributes that came from `extra=`, and the others.
  unfoldable pub extras : Fields → Fields
  extras end = end
  extras (field key value rest) =
      let others = extras rest in
      if contains key stdlib_attributes then others else field key value others

  unfoldable pub builtins : Fields → Fields
  builtins end = end
  builtins (field key value rest) =
      let others = builtins rest in
      if contains key stdlib_attributes then field key value others else others

  module _ (lower : Text → Text) where
    one-rule :
        (names : List Text) (attributes : Fields)
        → (extras (filter_record lower stdlib_attributes names attributes)
            ≡ redact_fields lower names (extras attributes))
          × (builtins (filter_record lower stdlib_attributes names attributes)
              ≡ builtins attributes)
    unfolding filter_record extras builtins redact_value
    one-rule names end = (refl, refl)
    one-rule names (field key value rest) =
        let (e, b) = one-rule names rest in
        elim (Bool-cases (contains key stdlib_attributes)) [
          | inl t ↦ (rw (t, t) e, rw (t, t) (cc b))
          | inr f ↦ (rw (f, f) (cc e), rw (f, f) b)
        ]

    -- What the filter makes of the extra attributes of a record is what the processor makes of them
    -- as an event's entries, at any depth, and it changes no attribute that every record has.
    pub redacting_filter-one_rule :
        (field_names : List Text) (attributes : Fields)
        → (extras (redacting_filter lower stdlib_attributes field_names attributes)
            ≡ redact_sensitive_fields lower field_names (extras attributes))
          × (builtins (redacting_filter lower stdlib_attributes field_names attributes)
              ≡ builtins attributes)
    unfolding redacting_filter redact_sensitive_fields
    redacting_filter-one_rule field_names attributes =
        one-rule (map (normalise lower) field_names) attributes
