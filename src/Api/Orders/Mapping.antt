-- ===== src/Api/Orders/Mapping.antt =====
-- The two mappings are total on what reaches them, and lose nothing that is shown.
use pyfr_m8_verify.Api.Orders.{
  to_lines, to_command, lines_out, OrderLineOut, to_response, OrderResponse, money_out,
}
use pyfr_m8_verify.Api.Schemas.{PlaceOrderRequest, OrderLineIn}
use pyfr_m8_verify.Base.{List, All, map, ◌≡◌, ℕ, ◌∷◌, Option, ◌+◌, Text, [], refl, arith, ◌∙◌, ◌*◌}
use pyfr_m8_verify.Services.Command.{PlaceOrderCommand}
use pyfr_m8_verify.Api.Schemas.Mirrors.{
  IsValidRequest, IsValidLineIn, as_line, line-ok, new_command-new_request,
}
use pyfr_m8_verify.Domain.Order.{Money, OrderLine, Order}
use pyfr_m8_verify.Services.PlaceOrder.Assembly.{IsValidCommand}
use pyfr_m8_verify.Errors.{ok}
use pyfr_m8_verify.Services.Command.Valid.{
  new_command_iff, IsValidPlaceOrderLine, new_place_order_line-IsValidPlaceOrderLine,
}
use pyfr_m8_verify.Domain.Order.Valid.{HasSubtotal, Matches, Matches-subtotals}
use pyfr_m8_verify.Errors.Exec.{bind_result}
use pyfr_m8_verify.Domain.Order.Totals.{sum_lines, subtotal-exact, IsTotal-parts}

lines-ok : (ls : List OrderLineIn) → All IsValidLineIn ls → to_lines ls ≡ ok (map as_line ls)
unfolding to_lines
lines-ok [] v = refl
lines-ok (l ∷ ls) v = rw (line-ok l v.0, bind_result) (rw (lines-ok ls v.1, bind_result))

-- The command that a request stands for.
abbrev pub command_of : PlaceOrderRequest → PlaceOrderCommand
command_of r = record { customer_id = r.customer_id; lines = map as_line r.lines }

-- A request that the API accepted always makes a command: the constraints that are written twice
-- agree, so the service never refuses what the contract allows.
pub to_command-total : (r : PlaceOrderRequest) → IsValidRequest r → to_command r ≡ ok (command_of r)
unfolding to_command
to_command-total r v =
    rw (lines-ok r.lines v.lines, bind_result) (new_command-new_request r v.accepted)

lines-valid :
    (ls : List OrderLineIn) → All IsValidLineIn ls → All IsValidPlaceOrderLine (map as_line ls)
lines-valid [] v = tt
lines-valid (l ∷ ls) v =
    (new_place_order_line-IsValidPlaceOrderLine _ _ _ _ _ (line-ok l v.0), lines-valid ls v.1)

-- And that command is one on which PlaceOrder cannot find a defect.
pub command_of-IsValidCommand :
    (r : PlaceOrderRequest) → IsValidRequest r → IsValidCommand (command_of r)
command_of-IsValidCommand r v = record {
  lines = lines-valid r.lines v.lines;
  acceptable =
      ((new_command_iff (command_of r) (command_of r)).0 (new_command-new_request r v.accepted)).1;
}

abbrev pub sum_subtotals : List OrderLineOut → ℕ
sum_subtotals [] = 0
sum_subtotals (l ∷ ls) = l.subtotal.amount.hundredths + sum_subtotals ls

-- What the lines of a body show of the lines of an order, one by one.
abbrev pub Shows : List OrderLine → List OrderLineOut → Type 0
Shows [] [] = Unit {0}
Shows (l ∷ ls) (out ∷ outs) =
    (out.sku ≡ l.sku)
    × (out.quantity ≡ l.quantity)
    × (out.unit_price.amount ≡ l.unit_price.amount)
    × (out.unit_price.currency ≡ l.unit_price.currency)
    × (out.subtotal.amount.hundredths ≡ l.unit_price.hundredths * l.quantity)
    × (out.subtotal.currency ≡ l.unit_price.currency)
    × Shows ls outs
Shows _ _ = ⊥

lines_out-total :
    (t : Money) (ls : List OrderLine)
    → All (HasSubtotal t) ls
    → (out : List OrderLineOut) × (lines_out ls ≡ ok out)
      × (sum_subtotals out ≡ sum_lines ls)
      × Shows ls out
unfolding lines_out
lines_out-total t [] h = ([], refl, refl, tt)
lines_out-total t (l ∷ ls) ((s, e, c, b), h) =
    let (out, p, q, shown) = lines_out-total t ls h in
    let x = subtotal-exact l s e in
    (
      record {
        sku = l.sku;
        quantity = l.quantity;
        unit_price = money_out l.unit_price;
        subtotal = money_out s;
      }
          ∷ out,
      rw (e, bind_result) (rw (p, bind_result)),
      unfold money_out in omega (arith, q, x.0),
      unfold money_out in (refl, refl, refl, refl, x.0, x.1, shown),
    )

-- An order that could be constructed always has a response: it shows the order's identifier, customer
-- and total and every line with its subtotal, and the subtotals sum to the total.
pub to_response-adds_up :
    (o : Order)
    → Matches o
    → (r : OrderResponse) × (to_response o ≡ ok r)
      × (sum_subtotals r.lines ≡ r.total.amount.hundredths)
      × (r.id ≡ o.id)
      × (r.customer_id ≡ o.customer_id)
      × (r.total.amount ≡ o.total.amount)
      × (r.total.currency ≡ o.total.currency)
      × Shows o.lines r.lines
unfolding to_response
to_response-adds_up o m =
    let (out, p, q, shown) = lines_out-total o.total o.lines (Matches-subtotals o m) in
    (
      record { id = o.id; customer_id = o.customer_id; lines = out; total = money_out o.total },
      rw (p, bind_result),
      q ∙ matched m,
      refl,
      refl,
      unfold money_out in refl,
      unfold money_out in refl,
      shown,
    )
  where
    matched : Matches o → sum_lines o.lines ≡ (money_out o.total).amount.hundredths
    matched (t, is, same) =
        unfold money_out in omega (arith, (IsTotal-parts o.lines t is).0, same.0)

-- The response does not show the internal note or the authorisation.
pub to_response-internal :
    (o : Order) (text authorisation : Option Text)
    → to_response (record o { internal_note = text; authorisation_id = authorisation })
      ≡ to_response o
unfolding to_response
to_response-internal o text authorisation = refl
