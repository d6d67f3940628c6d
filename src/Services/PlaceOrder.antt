-- ===== src/Services/PlaceOrder.antt =====
-- services/order.py: the use cases PlaceOrder and GetOrder, over any repository and any gateway.
pub mod Assembly
pub mod Outcomes
use pyfr_m8_verify.Base.{ℕ, Option, none, some, List, [], ◌∷◌}
use pyfr_m8_verify.Errors.{
  Exception, domain, service_defect, validation_error, value_error, order_not_found, Result, ok,
  raised,
}
use pyfr_m8_verify.Errors.Exec.{Exec, pure, raise, lift, ◌>>=◌, ◌>>◌, bind_result}
use pyfr_m8_verify.Domain.Order.{
  Money, OrderLine, Order, new_money, new_order_line, new_order, total_of,
}
use pyfr_m8_verify.Domain.Ports.{OrderRepository, PaymentGateway, Authorisation}
use pyfr_m8_verify.Services.Command.{PlaceOrderLine, PlaceOrderCommand}

-- `except (PydanticValidationError, ValueError)`; any other exception passes.
unfoldable pub as_defect : Exception → Exception
as_defect validation_error = service_defect
as_defect value_error = service_defect
as_defect e = e

unfoldable pub defects : {A : Type 0} → Result A → Result A
unfolding as_defect
defects (ok a) = ok a
defects (raised e) = raised (as_defect e)

unfoldable pub build_line : PlaceOrderLine → Result OrderLine
build_line item =
    bind_result (new_money item.unit_amount item.currency)
      λ unit_price. new_order_line item.sku item.quantity unit_price

unfoldable pub build_lines : List PlaceOrderLine → Result (List OrderLine)
unfolding build_line
build_lines [] = ok []
build_lines (item ∷ rest) =
    bind_result (build_line item) λ l. bind_result (build_lines rest) λ ls. ok (l ∷ ls)

pub record Priced : Type 0 where
  pub lines : List OrderLine
  pub total : Money

-- The first `try` of the use case.
unfoldable pub assemble : PlaceOrderCommand → Result Priced
unfolding build_lines defects
assemble command = defects (
    bind_result (build_lines command.lines)
      λ lines. bind_result (total_of lines) λ total. ok (record { lines = lines; total = total }))

-- The second one.
unfoldable pub authorised_order : ℕ → PlaceOrderCommand → Priced → Authorisation → Result Order
unfolding defects
authorised_order order_id command priced authorisation = defects (
    new_order (record {
      id = order_id;
      customer_id = command.customer_id;
      lines = priced.lines;
      total = priced.total;
      internal_note = none;
      authorisation_id = some authorisation.id;
    }))

module _ {S : Type 0} (orders : OrderRepository S) where
  -- PlaceOrder.__call__; `order_id` is the fresh uuid4.
  unfoldable pub place_order : PaymentGateway S → ℕ → PlaceOrderCommand → Exec S Order
  unfolding assemble authorised_order
  place_order payments order_id command = do
    priced ← lift (assemble command)
    authorisation ← payments.authorise order_id priced.total
    order ← lift (authorised_order order_id command priced authorisation)
    orders.save order
    pure order

  or_not_found : ℕ → Option Order → Exec S Order
  or_not_found order_id none = raise (domain (order_not_found order_id))
  or_not_found order_id (some order) = pure order

  -- GetOrder.__call__
  unfoldable pub get_order : ℕ → Exec S Order
  unfolding or_not_found
  get_order order_id = do order ← orders.get order_id; or_not_found order_id order
