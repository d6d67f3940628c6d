-- ===== src/Services/PlaceOrder/Assembly.antt =====
-- From a valid command PlaceOrder always builds a valid order: the defect branches are dead.
use pyfr_m8_verify.Base.{ℕ, ◌≡◌, sym, refl, none, some, List, [], ◌∷◌, arith, All, Text, map}
use pyfr_m8_verify.Errors.{ok}
use pyfr_m8_verify.Domain.Order.{
  Money, OrderLine, Order, amount_ok, new_money, new_order_line, clip,
}
use pyfr_m8_verify.Domain.Order.Totals.{
  money, sum_lines, max_places, InCurrency, IsTotal, total_of_iff,
}
use pyfr_m8_verify.Domain.Order.Valid.{IsValidLine, IsValidOrder, Matches, new_order_iff}
use pyfr_m8_verify.Domain.Ports.{Authorisation}
use pyfr_m8_verify.Services.Command.{PlaceOrderLine, PlaceOrderCommand}
use pyfr_m8_verify.Services.Command.Valid.{worth, PricedIn, Acceptable, IsValidPlaceOrderLine}
use pyfr_m8_verify.Services.PlaceOrder.{
  build_line, build_lines, defects, assemble, authorised_order, Priced,
}

-- The order line that a command line stands for.
abbrev pub order_line : PlaceOrderLine → OrderLine
order_line item = record {
  sku = item.sku;
  quantity = item.quantity;
  unit_price = record { amount = item.unit_amount; currency = item.currency };
}

-- A command that both validators and its lines' validators accepted.
pub record IsValidCommand (c : PlaceOrderCommand) : Type 0 where
  pub lines : All IsValidPlaceOrderLine c.lines
  pub acceptable : Acceptable c.lines

build_line-ok :
    (item : PlaceOrderLine) → IsValidPlaceOrderLine item → build_line item ≡ ok (order_line item)
unfolding build_line new_money new_order_line
build_line-ok item v = ground arith

build_lines-ok :
    (items : List PlaceOrderLine)
    → All IsValidPlaceOrderLine items
    → build_lines items ≡ ok (map order_line items)
unfolding build_lines
build_lines-ok [] v = refl
build_lines-ok (item ∷ rest) v =
    rw (build_line-ok item v.0, build_lines) (rw (build_lines-ok rest v.1))

line-IsValidLine :
    (item : PlaceOrderLine) → IsValidPlaceOrderLine item → IsValidLine (order_line item)
unfolding amount_ok
line-IsValidLine item v = ground arith

lines-IsValidLine :
    (items : List PlaceOrderLine)
    → All IsValidPlaceOrderLine items
    → All IsValidLine (map order_line items)
lines-IsValidLine [] v = tt
lines-IsValidLine (item ∷ rest) v = (line-IsValidLine item v.0, lines-IsValidLine rest v.1)

sum_lines-worth : (items : List PlaceOrderLine) → sum_lines (map order_line items) ≡ worth items
sum_lines-worth [] = refl
sum_lines-worth (item ∷ rest) = omega (arith, sum_lines-worth rest)

InCurrency-PricedIn :
    (c : Text) (items : List PlaceOrderLine)
    → All (PricedIn c) items
    → All (InCurrency c) (map order_line items)
InCurrency-PricedIn c [] a = tt
InCurrency-PricedIn c (item ∷ rest) a = (a.0, InCurrency-PricedIn c rest a.1)

-- What the command says the order costs.
abbrev pub price : List PlaceOrderLine → Money
price [] = money 0 0 []
price (item ∷ rest) =
    money (worth (item ∷ rest))
      (clip (worth (item ∷ rest)) (max_places (map order_line (item ∷ rest)))) item.currency

price-IsTotal :
    (items : List PlaceOrderLine)
    → All IsValidPlaceOrderLine items
    → Acceptable items
    → IsTotal (map order_line items) (price items)
price-IsTotal [] v h = h
price-IsTotal (item ∷ rest) v (a, b) = (
  sym (sum_lines-worth (item ∷ rest)),
  InCurrency-PricedIn item.currency (item ∷ rest) a,
  record { fits = omega arith; currency = v.0.currency },
  refl,
)

abbrev pub priced_of : PlaceOrderCommand → Priced
priced_of c = record { lines = map order_line c.lines; total = price c.lines }

pub assemble-ok : (c : PlaceOrderCommand) → IsValidCommand c → assemble c ≡ ok (priced_of c)
unfolding assemble
assemble-ok c v =
    rw (build_lines-ok c.lines v.lines, defects)
      (rw (
        (total_of_iff (map order_line c.lines) (price c.lines)).1
            (price-IsTotal c.lines v.lines v.acceptable),
        defects,
      ))

-- The order that a command stands for, once it has an identifier and an authorisation.
abbrev pub order_of : ℕ → PlaceOrderCommand → Authorisation → Order
order_of order_id c authorisation = record {
  id = order_id;
  customer_id = c.customer_id;
  lines = map order_line c.lines;
  total = price c.lines;
  internal_note = none;
  authorisation_id = some authorisation.id;
}

order_of-Matches :
    (n : ℕ) (c : PlaceOrderCommand) (a : Authorisation)
    → IsValidCommand c
    → Matches (order_of n c a)
order_of-Matches n c a v = (price c.lines, price-IsTotal c.lines v.lines v.acceptable, (refl, refl))

pub order_of-IsValidOrder :
    (n : ℕ) (c : PlaceOrderCommand) (a : Authorisation)
    → IsValidCommand c
    → IsValidOrder (order_of n c a)
order_of-IsValidOrder n c a v = record {
  lines = lines-IsValidLine c.lines v.lines;
  total = order_of-Matches n c a v;
}

pub authorised_order-ok :
    (n : ℕ) (c : PlaceOrderCommand) (a : Authorisation)
    → IsValidCommand c
    → authorised_order n c (priced_of c) a ≡ ok (order_of n c a)
unfolding authorised_order
authorised_order-ok n c a v =
    rw (
      (new_order_iff (order_of n c a) (order_of n c a)).1 (refl, order_of-Matches n c a v),
      defects,
    )
