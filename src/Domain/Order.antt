-- ===== src/Domain/Order.antt =====
-- domain/order.py. Constructing a pydantic model runs its validators, so each constructor is a
-- function that may raise. Identifiers (UUIDs) are numbers. A Python `int` that is a quantity is a
-- natural number: no operation here makes a negative one.
pub mod Places
pub mod Totals
pub mod Valid
use Prim.Native.Nat.{max}
use pyfr_m8_verify.Base.{
  ℕ, ◌+◌, ◌-◌, ◌*◌, ◌^◌, Bool, false, ◌&&◌, Option, List, [], ◌∷◌, leb, ◌==◌, if◌then◌else◌, length,
  Text, text_eq, suc, ltb, zero,
}
use pyfr_m8_verify.Errors.{validation_error, value_error, Result, ok, raised}
use pyfr_m8_verify.Errors.Exec.{bind_result}

-- `max_digits=14, decimal_places=2`: twelve whole digits, two places.
abbrev pub max_amount : ℕ
max_amount = 10 ^ 14 - 1

abbrev pub max_quantity : ℕ
max_quantity = 2147483647

abbrev pub is_upper : ℕ → Bool
is_upper c = leb b'A' c && leb c b'Z'

-- The pattern ^[A-Z]{3}$.
unfoldable pub currency_ok : Text → Bool
currency_ok (a ∷ b ∷ c ∷ []) = is_upper a && is_upper b && is_upper c
currency_ok _ = false

-- StringConstraints(min_length=1, max_length=64)
unfoldable pub sku_ok : Text → Bool
sku_ok sku = leb 1 (length sku) && leb (length sku) 64

unfoldable pub quantity_ok : ℕ → Bool
quantity_ok q = leb 1 q && leb q max_quantity

-- A `Decimal` that `Money` may hold: at most two places count, so its value is a number of
-- hundredths. `places` is the number of places it is written with (1.5 and 1.50 are equal values and
-- different texts).
pub record Decimal : Type 0 where
  pub hundredths : ℕ
  pub places : ℕ

-- The places that are left in a result: the context of Python's decimals keeps 28 digits, so the
-- trailing zeros behind them go. A value of h hundredths has h * 10 ^ places / 100 for its digits.
-- (The digits that count are never cut: an amount has at most 14 of them, a quantity 10.)
unfoldable pub clip : ℕ → ℕ → ℕ
clip h zero = zero
clip h (suc places) =
    let fewer = clip h places in if ltb (h * 10 ^ suc places) (10 ^ 30) then suc places else fewer

-- `+` writes as many places as the longer operand, `*` by an int as many as the Decimal has, and both
-- as many as the context keeps.
unfoldable pub add_decimal : Decimal → Decimal → Decimal
unfolding clip
add_decimal a b = record {
  hundredths = a.hundredths + b.hundredths;
  places = clip (a.hundredths + b.hundredths) (max a.places b.places);
}

unfoldable pub mul_decimal : Decimal → ℕ → Decimal
unfolding clip
mul_decimal a k = record {
  hundredths = a.hundredths * k;
  places = clip (a.hundredths * k) a.places;
}

pub record Money : Type 0 where
  pub amount : Decimal
  pub open amount use {hundredths, places}
  pub currency : Text

unfoldable pub amount_ok : Decimal → Bool
amount_ok a = leb a.hundredths max_amount

unfoldable pub new_money : Decimal → Text → Result Money
new_money amount currency =
    if amount_ok amount && currency_ok currency
    then ok (record { amount = amount; currency = currency })
    else raised validation_error

unfoldable pub add : Money → Money → Result Money
unfolding add_decimal
add self other =
    if text_eq other.currency self.currency
    then new_money (add_decimal self.amount other.amount) self.currency
    else raised value_error

unfoldable pub mul : Money → ℕ → Result Money
unfolding mul_decimal
mul self factor = new_money (mul_decimal self.amount factor) self.currency

pub record OrderLine : Type 0 where
  pub sku : Text
  pub quantity : ℕ
  pub unit_price : Money

unfoldable pub new_order_line : Text → ℕ → Money → Result OrderLine
new_order_line sku quantity unit_price =
    if sku_ok sku && quantity_ok quantity
    then ok (record { sku = sku; quantity = quantity; unit_price = unit_price })
    else raised validation_error

unfoldable pub subtotal : OrderLine → Result Money
subtotal line = mul line.unit_price line.quantity

unfoldable pub add_lines : Money → List OrderLine → Result Money
add_lines running [] = ok running
add_lines running (item ∷ rest) =
    bind_result (subtotal item) λ s. bind_result (add running s) λ r. add_lines r rest

unfoldable pub total_of : List OrderLine → Result Money
unfolding add_lines
total_of [] = raised value_error
total_of (line ∷ rest) = bind_result (subtotal line) λ s. add_lines s rest

pub record Order : Type 0 where
  pub id : ℕ
  pub customer_id : ℕ
  pub lines : List OrderLine
  pub total : Money
  pub internal_note : Option Text
  pub authorisation_id : Option Text

unfoldable pub money_eq : Money → Money → Bool
money_eq m n = (m.hundredths == n.hundredths) && text_eq m.currency n.currency

-- The validator's verdict; an exception inside a validator becomes a ValidationError.
unfoldable pub total_must_match_lines : Result Money → Money → Bool
total_must_match_lines (ok computed) total = money_eq computed total
total_must_match_lines (raised e) total = false

-- The constructor: `lines` has `min_length=1`, then the validator runs.
unfoldable pub new_order : Order → Result Order
new_order o =
    if leb 1 (length o.lines) && total_must_match_lines (total_of o.lines) o.total
    then ok o
    else raised validation_error
