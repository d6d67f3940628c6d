-- ===== src/Domain/Receipt.antt =====
-- domain/receipt_render.py: the receipt document of an order. `str` of a UUID, and of a Decimal, and
-- `json.dumps` (with its sorted keys and compact separators) are arguments.
pub mod Allowlist
use pyfr_m8_verify.Base.{ℕ, Option, List, Text, some, ◌∷◌, codes, none, []}
use pyfr_m8_verify.Domain.Order.{OrderLine, Order, Decimal, subtotal, Money}
use pyfr_m8_verify.Errors.{Result, ok}
use pyfr_m8_verify.Json.{Items, Json, null, nil, obj, field, str, cons, number, end, arr}
use pyfr_m8_verify.Domain.Ports.{Bytes}
use pyfr_m8_verify.Errors.Exec.{bind_result}

pub record Rendering : Type 0 where
  pub uuid_text : ℕ → Text
  pub decimal_text : Decimal → Text
  pub dumps : Json → Bytes

-- RECEIPT_SCHEMA_VERSION
abbrev pub receipt_schema_version : ℕ
receipt_schema_version = 1

optional_text : Option Text → Json
optional_text none = null
optional_text (some t) = str t

module _ (rendering : Rendering) where
  open rendering use {uuid_text, decimal_text, dumps}

  line_json : OrderLine → Money → Json
  line_json line s = obj (
      field (codes "sku") (str line.sku) (
        field (codes "quantity") (number line.quantity) (
          field (codes "unit_price") (str (decimal_text line.unit_price.amount))
            (field (codes "subtotal") (str (decimal_text s.amount)) end))))

  -- One entry of the comprehension; it raises where `subtotal` raises.
  unfoldable pub line_document : OrderLine → Result Json
  unfolding line_json
  line_document line = bind_result (subtotal line) λ s. ok (line_json line s)

  unfoldable pub lines_document : List OrderLine → Result Items
  unfolding line_document
  lines_document [] = ok nil
  lines_document (line ∷ rest) =
      bind_result (line_document line) λ j. bind_result (lines_document rest) λ js. ok (cons j js)

  document_of : Order → Items → Json
  unfolding optional_text
  document_of order lines = obj (
      field (codes "schema_version") (number receipt_schema_version) (
        field (codes "order_id") (str (uuid_text order.id)) (
          field (codes "customer_id") (str (uuid_text order.customer_id)) (
            field (codes "authorisation_id") (optional_text order.authorisation_id) (
              field (codes "currency") (str order.total.currency) (
                field (codes "total") (str (decimal_text order.total.amount))
                  (field (codes "lines") (arr lines) end)))))))

  unfoldable pub render_receipt : Order → Result Bytes
  unfolding lines_document document_of
  render_receipt order =
      bind_result (lines_document order.lines) λ lines. ok (dumps (document_of order lines))
