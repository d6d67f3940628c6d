-- ===== src/Observability/Redaction/Masking.antt =====
-- No entry under a sensitive key survives, at any depth.
use pyfr_m8_verify.Base.{true, false, inr, Bool, ap, inl, map, refl, sym}
use pyfr_m8_verify.Base.{Text, List, ◌≡◌, ◌⊎◌, if◌then◌else◌}
use pyfr_m8_verify.Json.{
  Json, boolean, number, str, arr, obj, Items, cons, Fields, field, null, nil, end,
}
use pyfr_m8_verify.Observability.Redaction.{
  matches, redact_value, redact_items, redact_fields, redacted, redact_sensitive_fields, normalise,
}

module _ (lower : Text → Text) (names : List Text) where
  -- Every entry under a name that matches has the mask for its value, at any depth.
  abbrev mutual
    pub IsMasked : Json → Type 0
    IsMasked null = Unit
    IsMasked (boolean b) = Unit
    IsMasked (number n) = Unit
    IsMasked (str t) = Unit
    IsMasked (arr items) = AllMasked items
    IsMasked (obj fields) = FieldsMasked fields

    pub AllMasked : Items → Type 0
    AllMasked nil = Unit
    AllMasked (cons v rest) = IsMasked v × AllMasked rest

    pub FieldsMasked : Fields → Type 0
    FieldsMasked end = Unit
    FieldsMasked (field key v rest) =
        ((matches lower names key ≡ false) ⊎ (v ≡ redacted)) × IsMasked v × FieldsMasked rest

  mutual
    unfolding redact_value

    value-IsMasked : (v : Json) → IsMasked (redact_value lower names v)
    value-IsMasked null = tt
    value-IsMasked (boolean b) = tt
    value-IsMasked (number n) = tt
    value-IsMasked (str t) = tt
    value-IsMasked (arr items) = items-AllMasked items
    value-IsMasked (obj fields) = fields-FieldsMasked fields

    items-AllMasked : (items : Items) → AllMasked (redact_items lower names items)
    items-AllMasked nil = tt
    items-AllMasked (cons v rest) = (value-IsMasked v, items-AllMasked rest)

    fields-FieldsMasked : (fields : Fields) → FieldsMasked (redact_fields lower names fields)
    fields-FieldsMasked end = tt
    fields-FieldsMasked (field key v rest) =
        elim (matches lower names key)
          as (λ m.
            ((m ≡ false) ⊎ ((if m then redacted else redact_value lower names v) ≡ redacted))
            × IsMasked (if m then redacted else redact_value lower names v)
            × FieldsMasked (redact_fields lower names rest)) [
              | true ↦ (inr refl, tt, fields-FieldsMasked rest)
              | false ↦ (inl refl, value-IsMasked v, fields-FieldsMasked rest)
            ]

  masked-field :
      (key : Text) (m : Bool) (v w : Json)
      → (m ≡ false) ⊎ (v ≡ redacted)
      → w ≡ v
      → (if m then redacted else w) ≡ v
  masked-field key true v w (inl h) e = cc
  masked-field key true v w (inr h) e = sym h
  masked-field key false v w h e = e

  mutual
    unfolding redact_value

    value-fixed : (v : Json) → IsMasked v → redact_value lower names v ≡ v
    value-fixed null h = refl
    value-fixed (boolean b) h = refl
    value-fixed (number n) h = refl
    value-fixed (str t) h = refl
    value-fixed (arr items) h = ap arr (items-fixed items h)
    value-fixed (obj fields) h = ap obj (fields-fixed fields h)

    items-fixed : (items : Items) → AllMasked items → redact_items lower names items ≡ items
    items-fixed nil h = refl
    items-fixed (cons v rest) h = cc (value-fixed v h.0, items-fixed rest h.1)

    fields-fixed :
        (fields : Fields) → FieldsMasked fields → redact_fields lower names fields ≡ fields
    fields-fixed end h = refl
    fields-fixed (field key v rest) h = cc (
      masked-field key (matches lower names key) v (redact_value lower names v) h.0
          (value-fixed v h.1),
      fields-fixed rest h.2,
    )

module _ (lower : Text → Text) where
  -- After the processor has run, every entry whose normalised key is one of the normalised field names
  -- holds the mask, at any depth of nested dicts and lists.
  pub redact_sensitive_fields-FieldsMasked :
      (field_names : List Text) (event : Fields)
      → FieldsMasked lower
          (map (normalise lower) field_names)
          (redact_sensitive_fields lower field_names event)
  unfolding redact_sensitive_fields
  redact_sensitive_fields-FieldsMasked field_names event =
      fields-FieldsMasked lower (map (normalise lower) field_names) event

  -- An event in which every such entry is masked already is left as it is: nothing else is touched.
  pub redact_sensitive_fields-fixed :
      (field_names : List Text) (event : Fields)
      → FieldsMasked lower (map (normalise lower) field_names) event
      → redact_sensitive_fields lower field_names event ≡ event
  unfolding redact_sensitive_fields
  redact_sensitive_fields-fixed field_names event h =
      fields-fixed lower (map (normalise lower) field_names) event h
