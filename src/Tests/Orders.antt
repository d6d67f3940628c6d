-- ===== src/Tests/Orders.antt =====
-- domain/order.py and services/order.py at concrete inputs.
use pyfr_m8_verify.Domain.Order.Totals.{IsTotal, total_of_iff, money}
use pyfr_m8_verify.Domain.Order.Valid.{Matches, new_order_iff, Matches-subtotals, HasSubtotal}
use pyfr_m8_verify.Services.Command.Valid.{new_command_iff, Acceptable}
use pyfr_m8_verify.Services.PlaceOrder.Assembly.{IsValidCommand, order_of}
use pyfr_m8_verify.Services.PlaceOrder.Outcomes.{
  place_order-refines, place_order-WasPlaced, WasPlaced, authorise_then_save,
}
use pyfr_m8_verify.Base.{
  Text, All, codes, ap, ◌∷◌, ◌≡◌, arith, ℕ, [], ◌↔◌, none, ◌+◌, text_eq, refl,
}
use pyfr_m8_verify.Domain.Order.{
  OrderLine, total_of, Order, new_order, currency_ok, sku_ok, subtotal, quantity_ok, mul, amount_ok,
  add, new_money, clip,
}
use pyfr_m8_verify.Services.Command.{PlaceOrderLine, PlaceOrderCommand, new_command}
use pyfr_m8_verify.Domain.Ports.{OrderRepository, PaymentGateway}
use pyfr_m8_verify.Services.PlaceOrder.{place_order}
use pyfr_m8_verify.Errors.Exec.{Exec}
use pyfr_m8_verify.Errors.{ok}

abbrev pub eur : Text
eur = codes "EUR"

abbrev pub tea : OrderLine
tea = record { sku = codes "TEA"; quantity = 3; unit_price = money 250 2 eur }

abbrev pub milk : OrderLine
milk = record { sku = codes "MILK"; quantity = 2; unit_price = money 120 1 eur }

total_of_iff_example :
    (total_of (tea ∷ milk ∷ []) ≡ ok (money 990 2 eur))
    ↔ IsTotal (tea ∷ milk ∷ []) (money 990 2 eur)
total_of_iff_example = total_of_iff (tea ∷ milk ∷ []) (money 990 2 eur)

total_of_runs : total_of (tea ∷ milk ∷ []) ≡ ok (money 990 2 eur)
unfolding total_of subtotal mul add new_money currency_ok amount_ok text_eq
total_of_runs = refl

abbrev pub breakfast : Order
breakfast = record {
  id = 7;
  customer_id = 1;
  lines = tea ∷ milk ∷ [];
  total = money 990 2 eur;
  internal_note = none;
  authorisation_id = none;
}

new_order_iff_example :
    (new_order breakfast ≡ ok breakfast) ↔ ((breakfast ≡ breakfast) × Matches breakfast)
new_order_iff_example = new_order_iff breakfast breakfast

pub breakfast-Matches : Matches breakfast
unfolding currency_ok clip
breakfast-Matches = (
  money 990 2 eur,
  (refl, (refl, (refl, tt)), record { fits = omega arith; currency = refl }, refl),
  (refl, refl),
)

Matches-subtotals_example : All (HasSubtotal breakfast.total) breakfast.lines
Matches-subtotals_example = Matches-subtotals breakfast breakfast-Matches

abbrev pub tea_item : PlaceOrderLine
tea_item = record {
  sku = codes "TEA";
  quantity = 3;
  unit_amount = record { hundredths = 250; places = 2 };
  currency = eur;
}

abbrev pub tea_command : PlaceOrderCommand
tea_command = record { customer_id = 1; lines = tea_item ∷ [] }

new_command_iff_example :
    (new_command tea_command ≡ ok tea_command)
    ↔ ((tea_command ≡ tea_command) × Acceptable (tea_item ∷ []))
new_command_iff_example = new_command_iff tea_command tea_command

pub tea_command-IsValidCommand : IsValidCommand tea_command
unfolding sku_ok quantity_ok amount_ok currency_ok
tea_command-IsValidCommand = record {
  lines = (record { sku = refl; quantity = refl; amount = refl; currency = refl }, tt);
  acceptable = ((refl, tt), omega arith);
}

-- A world that counts the orders saved; the gateway always authorises.
abbrev pub counting : OrderRepository ℕ
counting = record { get = λ n s. (ok none, s); save = λ o s. (ok tt, s + 1) }

abbrev pub generous : PaymentGateway ℕ
generous = record { authorise = λ n total s. (ok (record { id = codes "auth_1" }), s) }

place_order-refines_example :
    place_order counting generous 7 tea_command
    ≡ authorise_then_save counting generous 7 tea_command
place_order-refines_example =
    place_order-refines counting generous 7 tea_command tea_command-IsValidCommand

place_order-WasPlaced_example :
    WasPlaced counting generous 7 tea_command 0 1
      (order_of 7 tea_command (record { id = codes "auth_1" }))
place_order-WasPlaced_example =
    place_order-WasPlaced counting generous 7 tea_command 0 1
      (order_of 7 tea_command (record { id = codes "auth_1" })) tea_command-IsValidCommand
      (ap (λ (m : Exec ℕ Order). m 0)
        (place_order-refines counting generous 7 tea_command tea_command-IsValidCommand))
