-- ===== src/Services/Command.antt =====
-- services/order.py: PlaceOrderLine and PlaceOrderCommand, the input of PlaceOrder.
use pyfr_m8_verify.Base.{
  ℕ, ◌+◌, ◌-◌, ◌*◌, ◌/◌, ◌%◌, ◌^◌, Bool, true, false, not, ◌&&◌, ◌||◌, Option, none, some, List, [],
  ◌∷◌, leb, ltb, ◌==◌, if◌then◌else◌, length, Text, text_eq,
}
use pyfr_m8_verify.Errors.{validation_error, Result, ok, raised}
use pyfr_m8_verify.Errors.Exec.{bind_result}
use pyfr_m8_verify.Domain.Order.{
  Decimal, max_amount, add_decimal, mul_decimal, amount_ok, currency_ok, sku_ok, quantity_ok,
}
pub mod Valid

-- A finite `Decimal` as it arrives: (-1)^negative * coefficient / 10^places. Of one with a positive
-- exponent the coefficient is written out.
pub record RawDecimal : Type 0 where
  pub negative : Bool
  pub coefficient : ℕ
  pub places : ℕ

abbrev pub as_decimal : RawDecimal → Decimal
as_decimal d = record { hundredths = d.coefficient * 100 / 10 ^ d.places; places = d.places }

-- Field(ge=0, max_digits=14, decimal_places=2)
unfoldable pub check_amount : RawDecimal → Option Decimal
unfolding amount_ok
check_amount d =
    if (not d.negative || d.coefficient == 0)
      && (d.coefficient * 100 % 10 ^ d.places == 0)
      && amount_ok (as_decimal d)
    then some (as_decimal d)
    else none

pub record PlaceOrderLine : Type 0 where
  pub sku : Text
  pub quantity : ℕ
  pub unit_amount : Decimal
  pub currency : Text

new_line : Option Decimal → Text → ℕ → Text → Result PlaceOrderLine
new_line none sku quantity currency = raised validation_error
new_line (some amount) sku quantity currency =
    if sku_ok sku && quantity_ok quantity && currency_ok currency
    then ok (record { sku = sku; quantity = quantity; unit_amount = amount; currency = currency })
    else raised validation_error

unfoldable pub new_place_order_line : Text → ℕ → RawDecimal → Text → Result PlaceOrderLine
unfolding new_line check_amount
new_place_order_line sku quantity unit_amount currency =
    new_line (check_amount unit_amount) sku quantity currency

pub record PlaceOrderCommand : Type 0 where
  pub customer_id : ℕ
  pub lines : List PlaceOrderLine

-- The set comprehension over the lines' currencies.
unfoldable pub insert_currency : Text → List Text → List Text
insert_currency c [] = c ∷ []
insert_currency c (d ∷ ds) = if text_eq c d then d ∷ ds else d ∷ insert_currency c ds

unfoldable pub currencies : List PlaceOrderLine → List Text
unfolding insert_currency
currencies [] = []
currencies (l ∷ ls) = insert_currency l.currency (currencies ls)

unfoldable pub lines_must_share_one_currency : PlaceOrderCommand → Bool
unfolding currencies
lines_must_share_one_currency self = not (ltb 1 (length (currencies self.lines)))

abbrev zero_decimal : Decimal
zero_decimal = record { hundredths = 0; places = 0 }

unfoldable pub sum_amounts : Decimal → List PlaceOrderLine → Decimal
unfolding add_decimal mul_decimal
sum_amounts acc [] = acc
sum_amounts acc (l ∷ ls) = sum_amounts (add_decimal acc (mul_decimal l.unit_amount l.quantity)) ls

abbrev pub max_order_total : ℕ
max_order_total = 99999999999999

unfoldable pub total_must_fit_in_money : PlaceOrderCommand → Bool
unfolding sum_amounts
total_must_fit_in_money self =
    not (ltb max_order_total (sum_amounts zero_decimal self.lines).hundredths)

-- The constructor: `min_length=1`, then both validators.
unfoldable pub new_command : PlaceOrderCommand → Result PlaceOrderCommand
unfolding lines_must_share_one_currency total_must_fit_in_money
new_command c =
    if leb 1 (length c.lines) && lines_must_share_one_currency c && total_must_fit_in_money c
    then ok c
    else raised validation_error
