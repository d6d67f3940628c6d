-- ===== src/Domain/Receipt/Allowlist.antt =====
-- What a receipt depends on, and that rendering a valid order never fails.
use pyfr_m8_verify.Domain.Receipt.{
  Rendering, render_receipt, lines_document, document_of, line_json,
}
use pyfr_m8_verify.Domain.Order.{Order, Money, OrderLine}
use pyfr_m8_verify.Base.{Option, List, Text, ◌≡◌, All, refl, ◌∷◌, []}
use pyfr_m8_verify.Domain.Order.Valid.{Matches, HasSubtotal, Matches-subtotals}
use pyfr_m8_verify.Domain.Ports.{Bytes}
use pyfr_m8_verify.Errors.{ok}
use pyfr_m8_verify.Json.{Items, nil, cons}
use pyfr_m8_verify.Errors.Exec.{bind_result}

module _ (rendering : Rendering) where
  -- Two orders that differ in their internal note only have the same receipt, byte for byte.
  pub render_receipt-internal_note :
      (o : Order) (text : Option Text)
      → render_receipt rendering (record o { internal_note = text }) ≡ render_receipt rendering o
  unfolding render_receipt
  render_receipt-internal_note o text = refl

  lines-ok :
      (t : Money) (ls : List OrderLine)
      → All (HasSubtotal t) ls
      → (js : Items) × (lines_document rendering ls ≡ ok js)
  unfolding lines_document
  lines-ok t [] h = (nil, refl)
  lines-ok t (l ∷ ls) ((s, e, _, _), h) =
      let (js, p) = lines-ok t ls h in
      (cons (line_json rendering l s) js, rw (e, bind_result) (rw (p, bind_result)))

  -- A receipt of an order that could be constructed can always be rendered.
  pub render_receipt-total :
      (o : Order) → Matches o → (b : Bytes) × (render_receipt rendering o ≡ ok b)
  unfolding render_receipt
  render_receipt-total o m =
      let (js, p) = lines-ok o.total o.lines (Matches-subtotals o m) in
      (rendering.dumps (document_of rendering o js), rw (p, bind_result))
