-- ===== src/Observability/Logging/Event/Correlated.antt =====
-- The identifiers on a record read back.
use pyfr_m8_verify.Base.{
  Text, ℕ, if◌then◌else◌, ◌∷◌, ◌++◌, ◌<◌, length, ltb, ◌*◌, [], ◌≡◌, ◌^◌, ◌-◌, ◌+◌, arith, ◌/◌, suc,
  length-append, zero, refl, ◌%◌, ◌∙◌, text_eq, Option, true, some, codes, text_eq_iff, false, ◌⊎◌,
  Bool-cases, inl, inr,
}
use pyfr_m8_verify.Json.{Json, str, Fields, field, end, get_field}
use pyfr_m8_verify.Observability.Logging.Event.{
  format_hex, hex_digit, set_field, add_otel_context, SpanContext,
}

abbrev digit_value : ℕ → ℕ
digit_value c = if ltb c b'a' then c - b'0' else (c - b'a') + 10

-- int(s, 16)
abbrev pub from_hex : ℕ → Text → ℕ
from_hex n [] = n
from_hex n (c ∷ s) = from_hex (16 * n + digit_value c) s

from_hex-append :
    (n c : ℕ) (s : Text) → from_hex n (s ++ (c ∷ [])) ≡ 16 * from_hex n s + digit_value c
from_hex-append n c [] = refl
from_hex-append n c (d ∷ s) = from_hex-append (16 * n + digit_value d) c s

digit_value-hex_digit : (d : ℕ) → d < 16 → digit_value (hex_digit d) ≡ d
digit_value-hex_digit d h = ground arith

divided : (n b : ℕ) → n < 16 * b → n / 16 < b
divided n b h = omega arith

from_hex-format_hex : (width n : ℕ) → n < 16 ^ width → from_hex 0 (format_hex width n) ≡ n
unfolding format_hex
from_hex-format_hex zero n h = omega (arith, h)
from_hex-format_hex (suc width) n h =
    let bound : n < 16 * 16 ^ width = omega (arith, h) in
    let high = from_hex-format_hex width (n / 16) (divided n (16 ^ width) bound) in
    let low = digit_value-hex_digit (n % 16) (omega arith) in
    from_hex-append 0 (hex_digit (n % 16)) (format_hex width (n / 16)) ∙ omega (arith, high, low)

length-format_hex : (width n : ℕ) → length (format_hex width n) ≡ width
unfolding format_hex
length-format_hex zero n = refl
length-format_hex (suc width) n = omega (
  arith,
  length-append (format_hex width (n / 16)) (hex_digit (n % 16) ∷ []),
  length-format_hex width (n / 16),
)

get_field-set_field :
    (j k : Text) (v : Json) (event : Fields)
    → get_field j (set_field k v event) ≡ (if text_eq k j then some v else get_field j event)
unfolding get_field set_field
get_field-set_field j k v end = refl
get_field-set_field j k v (field i w rest) =
    ground
      (arith, text_eq_iff k j, text_eq_iff i k, text_eq_iff i j, get_field-set_field j k v rest)

abbrev stamped : Text → Text → Fields → Fields
stamped trace span event =
    set_field (codes "span_id") (str span) (set_field (codes "trace_id") (str trace) event)

get_field-stamped :
    (trace span key : Text) (event : Fields)
    → get_field key (stamped trace span event) ≡ (
        if text_eq (codes "span_id") key
        then some (str span)
        else if text_eq (codes "trace_id") key
        then some (str trace)
        else get_field key event)
get_field-stamped trace span key event =
    rw
      (
        get_field-set_field key (codes "span_id") (str span)
            (set_field (codes "trace_id") (str trace) event),
        get_field-set_field key (codes "trace_id") (str trace) event,
      )
      refl

-- An identifier of the width, that reads back as the number.
abbrev pub IsIdentifier : ℕ → ℕ → Option Json → Type 0
IsIdentifier width n value =
    (t : Text) × (value ≡ some (str t)) × (length t ≡ width) × (from_hex 0 t ≡ n)

-- A record within a span carries the span's two identifiers, in 32 and 16 digits that read back as the
-- numbers, whatever the record held under these keys, and all its other entries are kept. A record
-- outside of one is left as it is. The identifiers have at most 128 and 64 bits.
pub add_otel_context-ids :
    (context : SpanContext) (event : Fields)
    → context.trace_id < 16 ^ 32
    → context.span_id < 16 ^ 16
    → ((context.is_valid ≡ true)
        × IsIdentifier 32 context.trace_id
            (get_field (codes "trace_id") (add_otel_context context event))
        × IsIdentifier 16 context.span_id
            (get_field (codes "span_id") (add_otel_context context event))
        × ((key : Text)
            → text_eq (codes "trace_id") key ≡ false
            → text_eq (codes "span_id") key ≡ false
            → get_field key (add_otel_context context event) ≡ get_field key event))
      ⊎ ((context.is_valid ≡ false) × (add_otel_context context event ≡ event))
unfolding add_otel_context text_eq
add_otel_context-ids context event h k = elim (Bool-cases context.is_valid) [
  | inl e ↦
      let trace = format_hex 32 context.trace_id in
      let span = format_hex 16 context.span_id in
      inl (
        e,
        (
          trace,
          rw e (get_field-stamped trace span (codes "trace_id") event),
          length-format_hex 32 context.trace_id,
          from_hex-format_hex 32 context.trace_id h,
        ),
        (
          span,
          rw e (get_field-stamped trace span (codes "span_id") event),
          length-format_hex 16 context.span_id,
          from_hex-format_hex 16 context.span_id k,
        ),
        λ key p q. rw e (get_field-stamped trace span key event ∙ rw (q, p) refl),
      )
  | inr e ↦ inr (e, rw e refl)
]
