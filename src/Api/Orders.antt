-- ===== src/Api/Orders.antt =====
-- api/v1/mappers.py and api/v1/router.py: from a request to a command, from an order to a response, and
-- the three routes. `str` of a UUID is an argument; what FastAPI does before a route runs is not
-- modelled.
pub mod Mapping
pub mod Endpoint
use pyfr_m8_verify.Domain.Order.{Decimal, Money, Order, OrderLine, subtotal}
use pyfr_m8_verify.Base.{Text, ℕ, List, ◌∷◌, codes, [], ◌++◌}
use pyfr_m8_verify.Api.Schemas.{PlaceOrderRequest, OrderLineIn}
use pyfr_m8_verify.Domain.Ports.{OrderRepository, Bytes, PaymentGateway, ReceiptStore}
use pyfr_m8_verify.Errors.{Result, ok}
use pyfr_m8_verify.Errors.Exec.{Exec, bind_result, ◌>>=◌, lift, pure}
use pyfr_m8_verify.Domain.Receipt.{Rendering}
use pyfr_m8_verify.Services.Command.{
  PlaceOrderLine, PlaceOrderCommand, new_command, new_place_order_line,
}
use pyfr_m8_verify.Services.PlaceOrder.{get_order, place_order}
use pyfr_m8_verify.Services.GetReceipt.{get_receipt}

pub record MoneyOut : Type 0 where
  pub amount : Decimal
  pub currency : Text

pub record OrderLineOut : Type 0 where
  pub sku : Text
  pub quantity : ℕ
  pub unit_price : MoneyOut
  pub subtotal : MoneyOut

pub record OrderResponse : Type 0 where
  pub id : ℕ
  pub customer_id : ℕ
  pub lines : List OrderLineOut
  pub total : MoneyOut

to_lines : List OrderLineIn → Result (List PlaceOrderLine)
to_lines [] = ok []
to_lines (item ∷ rest) =
    bind_result (new_place_order_line item.sku item.quantity item.unit_amount item.currency)
      λ l. bind_result (to_lines rest) λ ls. ok (l ∷ ls)

unfoldable pub to_command : PlaceOrderRequest → Result PlaceOrderCommand
unfolding to_lines
to_command request =
    bind_result (to_lines request.lines)
      λ lines. new_command (record { customer_id = request.customer_id; lines = lines })

unfoldable pub money_out : Money → MoneyOut
money_out money = record { amount = money.amount; currency = money.currency }

unfoldable pub lines_out : List OrderLine → Result (List OrderLineOut)
unfolding money_out
lines_out [] = ok []
lines_out (line ∷ rest) = bind_result (subtotal line) λ s. bind_result (lines_out rest) λ ls. ok (
    record {
      sku = line.sku;
      quantity = line.quantity;
      unit_price = money_out line.unit_price;
      subtotal = money_out s;
    }
    ∷ ls)

unfoldable pub to_response : Order → Result OrderResponse
unfolding lines_out money_out
to_response order = bind_result (lines_out order.lines) λ lines. ok (record {
  id = order.id;
  customer_id = order.customer_id;
  lines = lines;
  total = money_out order.total;
})

-- What a route answers when nothing raises.
pub data Success : Type 0 where
  created : (location : Text) → OrderResponse → Success
  order_found : OrderResponse → Success
  receipt : Bytes → Success

module _ {S : Type 0} (orders : OrderRepository S) where
  -- POST /api/v1/orders
  unfoldable pub place_order_route :
      PaymentGateway S → (ℕ → Text) → ℕ → PlaceOrderRequest → Exec S Success
  place_order_route payments uuid_text fresh request = do
    command ← lift (to_command request)
    order ← place_order orders payments fresh command
    response ← lift (to_response order)
    pure (created (codes "/api/v1/orders/" ++ uuid_text order.id) response)

  -- GET /api/v1/orders/{order_id}
  unfoldable pub get_order_route : ℕ → Exec S Success
  get_order_route order_id = do
    order ← get_order orders order_id
    response ← lift (to_response order)
    pure (order_found response)

  -- GET /api/v1/orders/{order_id}/receipt
  unfoldable pub get_receipt_route : Rendering → ReceiptStore S → ℕ → Exec S Success
  get_receipt_route rendering receipts order_id = do
    content ← get_receipt rendering orders receipts order_id
    pure (receipt content)
