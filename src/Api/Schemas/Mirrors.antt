-- ===== src/Api/Schemas/Mirrors.antt =====
-- The request's constraints keep in step with the command's: what the API accepts, PlaceOrderCommand
-- accepts.
use pyfr_m8_verify.Api.Schemas.{
  other_value, PlaceOrderRequest, currencies_in, sum_amounts_in, new_request,
}
use pyfr_m8_verify.Api.Schemas.{
  PyValue, quantity_field, OrderLineIn, new_order_line_in, unit_amount_ok, int, float, boolean,
}
use pyfr_m8_verify.Services.Command.{
  check_amount, RawDecimal, as_decimal, PlaceOrderLine, new_place_order_line, currencies,
  sum_amounts, new_command,
}
use pyfr_m8_verify.Base.{
  ℕ, Text, ◌≡◌, true, ◌↔◌, some, if◌then◌else◌, arith, ◌&&◌, false, List, All, length, map, ◌∷◌, ap,
  [], suc, refl,
}
use pyfr_m8_verify.Domain.Order.{
  sku_ok, quantity_ok, currency_ok, Decimal, add_decimal, mul_decimal,
}
use pyfr_m8_verify.Errors.{ok, raised, validation_error}
use pyfr_m8_verify.Errors.Exec.{bind_result-eq_ok}

-- The number that a JSON value stands for as a quantity.
abbrev pub IsQuantity : PyValue → ℕ → Type 0
IsQuantity (int false n) q = (n ≡ q) × (quantity_ok q ≡ true)
IsQuantity (float false n true) q = (n ≡ q) × (quantity_ok q ≡ true)
IsQuantity _ q = ⊥

-- A quantity is accepted exactly when it is an integer, or a float with nothing after the point, from 1
-- to 2147483647, and it is accepted as that number; a boolean never is.
pub quantity_field_iff : (v : PyValue) (q : ℕ) → (quantity_field v ≡ ok q) ↔ IsQuantity v q
unfolding quantity_field
quantity_field_iff (boolean b) q = (λ h. cc, λ h. absurd h)
quantity_field_iff (int false n) q = (λ h. ground arith, λ h. ground arith)
quantity_field_iff (int true n) q = (λ h. cc, λ h. absurd h)
quantity_field_iff (float false n true) q = (λ h. ground arith, λ h. ground arith)
quantity_field_iff (float false n false) q = (λ h. cc, λ h. absurd h)
quantity_field_iff (float true n true) q = (λ h. cc, λ h. absurd h)
quantity_field_iff (float true n false) q = (λ h. cc, λ h. absurd h)
quantity_field_iff other_value q = (λ h. cc, λ h. absurd h)

-- A line that `OrderLineIn` accepted.
pub record IsValidLineIn (l : OrderLineIn) : Type 0 where
  pub sku : sku_ok l.sku ≡ true
  pub quantity : quantity_ok l.quantity ≡ true
  pub amount : check_amount l.unit_amount ≡ some (as_decimal l.unit_amount)
  pub currency : currency_ok l.currency ≡ true

strict-ok : (v : PyValue) (q : ℕ) → quantity_field v ≡ ok q → quantity_ok q ≡ true
unfolding quantity_field
strict-ok (boolean b) q h = cc
strict-ok (int false n) q h = ground arith
strict-ok (int true n) q h = cc
strict-ok (float false n true) q h = ground arith
strict-ok (float false n false) q h = cc
strict-ok (float true n true) q h = cc
strict-ok (float true n false) q h = cc
strict-ok other_value q h = cc

amount-ok :
    (d : RawDecimal) → unit_amount_ok (check_amount d) ≡ true → check_amount d ≡ some (as_decimal d)
unfolding check_amount unit_amount_ok
amount-ok d h = ground arith

pub new_order_line_in-IsValidLineIn :
    (sku : Text) (quantity : PyValue) (unit_amount : RawDecimal) (currency : Text) (l : OrderLineIn)
    → new_order_line_in sku quantity unit_amount currency ≡ ok l
    → IsValidLineIn l
unfolding new_order_line_in
new_order_line_in-IsValidLineIn sku quantity unit_amount currency l h =
    let (q, e, k) = bind_result-eq_ok (quantity_field quantity) _ h in
    accepted q (strict-ok quantity q e) k
  where
    accepted :
        (q : ℕ)
        → quantity_ok q ≡ true
        → (if sku_ok sku && unit_amount_ok (check_amount unit_amount) && currency_ok currency
            then ok
                (record { sku = sku; quantity = q; unit_amount = unit_amount; currency = currency })
            else raised validation_error)
          ≡ ok l
        → IsValidLineIn l
    accepted q p k = ground (arith, amount-ok unit_amount)

-- The command line that a request line stands for.
abbrev pub as_line : OrderLineIn → PlaceOrderLine
as_line l = record {
  sku = l.sku;
  quantity = l.quantity;
  unit_amount = as_decimal l.unit_amount;
  currency = l.currency;
}

-- A request that its validators, and those of its lines, accepted.
pub record IsValidRequest (r : PlaceOrderRequest) : Type 0 where
  pub lines : All IsValidLineIn r.lines
  pub accepted : new_request r ≡ ok r

currencies-in : (ls : List OrderLineIn) → currencies_in ls ≡ currencies (map as_line ls)
unfolding currencies_in currencies
currencies-in [] = refl
currencies-in (l ∷ ls) = rw (currencies-in ls)

sum_amounts-in :
    (acc : Decimal) (ls : List OrderLineIn)
    → sum_amounts_in acc ls ≡ sum_amounts acc (map as_line ls)
unfolding sum_amounts_in sum_amounts
sum_amounts-in acc [] = refl
sum_amounts-in acc (l ∷ ls) =
    sum_amounts-in (add_decimal acc (mul_decimal (as_decimal l.unit_amount) l.quantity)) ls

length-map : (ls : List OrderLineIn) → length (map as_line ls) ≡ length ls
length-map [] = refl
length-map (l ∷ ls) = ap suc (length-map ls)

-- A request whose own validators accept it stands for a command whose own validators accept it.
pub new_command-new_request :
    (r : PlaceOrderRequest)
    → new_request r ≡ ok r
    → new_command (record { customer_id = r.customer_id; lines = map as_line r.lines })
      ≡ ok (record { customer_id = r.customer_id; lines = map as_line r.lines })
unfolding new_request new_command
new_command-new_request r h = ground (
  arith,
  length-map r.lines,
  currencies-in r.lines,
  sum_amounts-in (record { hundredths = 0; places = 0 }) r.lines,
)

pub line-ok :
    (l : OrderLineIn)
    → IsValidLineIn l
    → new_place_order_line l.sku l.quantity l.unit_amount l.currency ≡ ok (as_line l)
unfolding new_place_order_line
line-ok l v = rw v.amount (ground arith)
