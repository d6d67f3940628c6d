-- ===== src/Api/Schemas.antt =====
-- api/v1/schemas.py: what a request may hold.
pub mod Mirrors
use pyfr_m8_verify.Base.{
  Bool, ℕ, Text, Option, List, if◌then◌else◌, false, ◌∷◌, not, some, ltb, leb, length, none, [],
  ◌&&◌, true,
}
use pyfr_m8_verify.Errors.{Result, ok, raised, validation_error}
use pyfr_m8_verify.Domain.Order.{
  Decimal, quantity_ok, add_decimal, sku_ok, mul_decimal, currency_ok,
}
use pyfr_m8_verify.Services.Command.{RawDecimal, insert_currency, as_decimal, check_amount}
use pyfr_m8_verify.Errors.Exec.{bind_result}

-- A JSON value for a quantity, as Python reads it. A float has its whole part and says whether it is
-- all of it.
pub data PyValue : Type 0 where
  boolean : Bool → PyValue
  int : (negative : Bool) → ℕ → PyValue
  float : (negative : Bool) → (whole : ℕ) → (is_integer : Bool) → PyValue
  other_value : PyValue

unfoldable pub integral_float_to_int : PyValue → PyValue
integral_float_to_int (boolean b) = boolean b
integral_float_to_int (float negative whole true) = int negative whole
integral_float_to_int value = value

-- The strict int validator, with gt=0 and le=2_147_483_647.
strict_quantity : PyValue → Result ℕ
strict_quantity (int false n) = if quantity_ok n then ok n else raised validation_error
strict_quantity _ = raised validation_error

unfoldable pub quantity_field : PyValue → Result ℕ
unfolding integral_float_to_int strict_quantity
quantity_field value = strict_quantity (integral_float_to_int value)

abbrev pub max_money : ℕ
max_money = 99999999999999

pub record OrderLineIn : Type 0 where
  pub sku : Text
  pub quantity : ℕ
  pub unit_amount : RawDecimal
  pub currency : Text

-- Field(ge=0, le=MAX_MONEY, max_digits=14, decimal_places=2)
unit_amount_ok : Option Decimal → Bool
unit_amount_ok none = false
unit_amount_ok (some d) = leb d.hundredths max_money

unfoldable pub new_order_line_in : Text → PyValue → RawDecimal → Text → Result OrderLineIn
unfolding unit_amount_ok
new_order_line_in sku quantity unit_amount currency = bind_result (quantity_field quantity) λ q.
    if sku_ok sku && unit_amount_ok (check_amount unit_amount) && currency_ok currency
    then ok (record { sku = sku; quantity = q; unit_amount = unit_amount; currency = currency })
    else raised validation_error

pub record PlaceOrderRequest : Type 0 where
  pub customer_id : ℕ
  pub lines : List OrderLineIn

unfoldable pub currencies_in : List OrderLineIn → List Text
currencies_in [] = []
currencies_in (l ∷ ls) = insert_currency l.currency (currencies_in ls)

unfoldable pub lines_must_share_one_currency : PlaceOrderRequest → Bool
unfolding currencies_in
lines_must_share_one_currency self = not (ltb 1 (length (currencies_in self.lines)))

unfoldable pub sum_amounts_in : Decimal → List OrderLineIn → Decimal
sum_amounts_in acc [] = acc
sum_amounts_in acc (l ∷ ls) =
    sum_amounts_in (add_decimal acc (mul_decimal (as_decimal l.unit_amount) l.quantity)) ls

unfoldable pub total_must_fit_in_money : PlaceOrderRequest → Bool
unfolding sum_amounts_in
total_must_fit_in_money self =
    not
      (ltb max_money (sum_amounts_in (record { hundredths = 0; places = 0 }) self.lines).hundredths)

unfoldable pub new_request : PlaceOrderRequest → Result PlaceOrderRequest
unfolding lines_must_share_one_currency total_must_fit_in_money
new_request r =
    if leb 1 (length r.lines) && lines_must_share_one_currency r && total_must_fit_in_money r
    then ok r
    else raised validation_error
