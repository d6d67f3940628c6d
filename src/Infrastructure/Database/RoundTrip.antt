-- ===== src/Infrastructure/Database/RoundTrip.antt =====
-- What is written comes back, with amounts as NUMERIC(14, 2) holds them.
use pyfr_m8_verify.Domain.Order.{
  Decimal, OrderLine, Order, new_money, Money, new_order_line, amount_ok, clip,
}
use pyfr_m8_verify.Infrastructure.Database.{
  OrderRow, OrderLineRow, line_to_domain, lines_to_domain, to_domain, number_lines, order_values,
  line_values,
}
use pyfr_m8_verify.Base.{List, Text, map, All, ℕ, ◌≡◌, ◌∷◌, arith, [], ◌∙◌, refl, ◌+◌, sym}
use pyfr_m8_verify.Domain.Order.Totals.{
  sum_lines, InCurrency, IsTotal, IsValidMoney, money, IsTotal-parts, max_places, new_money_iff,
}
use pyfr_m8_verify.Domain.Order.Valid.{Matches, IsValidLine, IsValidOrder, new_order_iff}
use pyfr_m8_verify.Errors.{ok}
use pyfr_m8_verify.Errors.Exec.{bind_result}

-- A value of a NUMERIC(14, 2) column is read back with two places.
abbrev pub numeric : Decimal → Decimal
numeric d = record { hundredths = d.hundredths; places = 2 }

abbrev pub stored_row : OrderRow → OrderRow
stored_row row = record row { total_amount = numeric row.total_amount }

abbrev pub stored_line : OrderLineRow → OrderLineRow
stored_line line = record line { unit_amount = numeric line.unit_amount }

-- An order with the same values, all amounts written with two places.
abbrev pub two_places_line : OrderLine → OrderLine
two_places_line l = record {
  sku = l.sku;
  quantity = l.quantity;
  unit_price = record { amount = numeric l.unit_price.amount; currency = l.unit_price.currency };
}

abbrev pub two_places : Order → Order
two_places o = record {
  id = o.id;
  customer_id = o.customer_id;
  lines = map two_places_line o.lines;
  total = record { amount = numeric o.total.amount; currency = o.total.currency };
  internal_note = o.internal_note;
  authorisation_id = o.authorisation_id;
}

line-ok :
    (n k : ℕ) (l : OrderLine)
    → IsValidLine l
    → line_to_domain (record {
      order_id = n;
      line_number = k;
      sku = l.sku;
      quantity = l.quantity;
      unit_amount = numeric l.unit_price.amount;
      unit_currency = l.unit_price.currency;
    })
      ≡ ok (two_places_line l)
unfolding line_to_domain new_money new_order_line amount_ok
line-ok n k l v = ground arith

lines-ok :
    (n k : ℕ) (ls : List OrderLine)
    → All IsValidLine ls
    → lines_to_domain (map stored_line (number_lines n k ls)) ≡ ok (map two_places_line ls)
unfolding lines_to_domain number_lines
lines-ok n k [] v = refl
lines-ok n k (l ∷ ls) v =
    rw (line-ok n k l v.0, bind_result) (rw (lines-ok n (k + 1) ls v.1, bind_result))

sum-two_places : (ls : List OrderLine) → sum_lines (map two_places_line ls) ≡ sum_lines ls
sum-two_places [] = refl
sum-two_places (l ∷ ls) = omega (arith, sum-two_places ls)

currency-two_places :
    (c : Text) (ls : List OrderLine)
    → All (InCurrency c) ls
    → All (InCurrency c) (map two_places_line ls)
currency-two_places c [] a = tt
currency-two_places c (l ∷ ls) a = (a.0, currency-two_places c ls a.1)

IsTotal-two_places :
    (ls : List OrderLine) (t : Money)
    → IsTotal ls t
    → IsTotal
        (map two_places_line ls)
        (money t.hundredths (clip t.hundredths (max_places (map two_places_line ls))) t.currency)
IsTotal-two_places [] t h = h
IsTotal-two_places (l ∷ ls) t (e, a, v, p) = (
  e ∙ sym (sum-two_places (l ∷ ls)),
  currency-two_places t.currency (l ∷ ls) a,
  record { fits = v.fits; currency = v.currency },
  refl,
)

Matches-two_places : (o : Order) → Matches o → Matches (two_places o)
Matches-two_places o (t, is, same) = (_, IsTotal-two_places o.lines t is, same)

Matches-money : (o : Order) → Matches o → IsValidMoney o.total
Matches-money o (t, is, same) =
    let v = (IsTotal-parts o.lines t is).2 in
    record { fits = omega (arith, v.fits); currency = rw (← same.1) v.currency }

-- For every valid order: the rows written for it, read back with amounts at two places, rebuild
-- the same order with its amounts at two places, lines in their order, note and authorisation
-- included.
pub to_domain-order_values :
    (o : Order)
    → IsValidOrder o
    → to_domain (stored_row (order_values o)) (map stored_line (line_values o)) ≡ ok (two_places o)
unfolding to_domain order_values line_values
to_domain-order_values o v =
    let m = Matches-money o v.total in
    rw (lines-ok o.id 0 o.lines v.lines, bind_result)
      (rw
        (
          (new_money_iff (numeric o.total.amount) o.total.currency (two_places o).total).1
              (refl, refl, m.fits, m.currency),
          bind_result,
        )
        ((new_order_iff (two_places o) (two_places o)).1 (refl, Matches-two_places o v.total)))
