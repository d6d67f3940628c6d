-- ===== src/Domain/Order/Valid.antt =====
-- The orders that can be constructed.
use pyfr_m8_verify.Base.{
  ◌≤◌, ◌≡◌, ◌∙◌, ◌↔◌, inl, inr, true, List, [], ◌∷◌, arith, All, text_eq_iff, Text, length,
}
use pyfr_m8_verify.Errors.{Exception, validation_error, ok, raised}
use pyfr_m8_verify.Errors.Exec.{Result-cases}
use pyfr_m8_verify.Domain.Order.{
  Money, OrderLine, Order, max_amount, currency_ok, sku_ok, quantity_ok, subtotal, total_of,
  money_eq, total_must_match_lines, new_order,
}
use pyfr_m8_verify.Domain.Order.Totals.{
  IsTotal-parts, IsValidMoney, IsTotal, InCurrency, sum_lines, total_of_iff, subtotal_complete,
}

-- What `OrderLine` accepts.
pub record IsValidLine (l : OrderLine) : Type 0 where
  pub sku : sku_ok l.sku ≡ true
  pub quantity : quantity_ok l.quantity ≡ true
  pub unit_price : IsValidMoney l.unit_price

-- Two amounts of money that Python's `==` takes for one.
abbrev pub SameMoney : Money → Money → Type 0
SameMoney m n = (m.hundredths ≡ n.hundredths) × (m.currency ≡ n.currency)

-- The total of `o` has the value of the sum of its lines.
abbrev pub Matches : Order → Type 0
Matches o = (t : Money) × IsTotal o.lines t × SameMoney t o.total

pub record IsValidOrder (o : Order) : Type 0 where
  pub lines : All IsValidLine o.lines
  pub total : Matches o

money_eq_iff : (m n : Money) → (money_eq m n ≡ true) ↔ SameMoney m n
unfolding money_eq
money_eq_iff m n = (
  λ h. ground (arith, text_eq_iff m.currency n.currency),
  λ h. ground (arith, text_eq_iff m.currency n.currency),
)

IsTotal-ne_nil : (ls : List OrderLine) (t : Money) → IsTotal ls t → 1 ≤ length ls
IsTotal-ne_nil [] t h = absurd h
IsTotal-ne_nil (l ∷ ls) t h = omega arith

-- An `Order` can be constructed exactly when its total is the sum of its lines, of which there is at
-- least one, all in the currency of the total; the object is then what was given.
pub new_order_iff : (o p : Order) → (new_order o ≡ ok p) ↔ ((p ≡ o) × Matches o)
unfolding new_order total_must_match_lines
new_order_iff o p = (accepted, built)
  where
    accepted : new_order o ≡ ok p → (p ≡ o) × Matches o
    accepted h = elim (Result-cases (total_of o.lines)) [
      | inl (t, e) ↦ (
        ground arith,
        (t, (total_of_iff o.lines t).0 e, (money_eq_iff t o.total).0 (ground arith)),
      )
      | inr (x, e) ↦ absurd (ground arith)
    ]

    built : (p ≡ o) × Matches o → new_order o ≡ ok p
    built (e, (t, is, same)) = ground (
      arith,
      (total_of_iff o.lines t).1 is,
      (money_eq_iff t o.total).1 same,
      IsTotal-ne_nil o.lines t is,
    )

-- A rejected construction raises pydantic's ValidationError and nothing else.
pub new_order_error : (o : Order) {e : Exception} → new_order o ≡ raised e → e ≡ validation_error
unfolding new_order
new_order_error o h = ground arith

-- Every line of a constructed order has a subtotal, in the currency of the order, and no more than
-- its total.
abbrev pub HasSubtotal : Money → OrderLine → Type 0
HasSubtotal t l =
    (s : Money) × (subtotal l ≡ ok s) × (s.currency ≡ t.currency) × (s.hundredths ≤ t.hundredths)

subtotals :
    (c : Text) (t : Money) (ls : List OrderLine)
    → All (InCurrency c) ls
    → c ≡ t.currency
    → currency_ok c ≡ true
    → sum_lines ls ≤ t.hundredths
    → t.hundredths ≤ max_amount
    → All (HasSubtotal t) ls
subtotals c t [] a e k h b = tt
subtotals c t (l ∷ ls) a e k h b = (
  (_, subtotal_complete l (rw a.0 k) (omega arith), a.0 ∙ e, omega arith),
  subtotals c t ls a.1 e k (omega arith) b,
)

pub Matches-subtotals : (o : Order) → Matches o → All (HasSubtotal o.total) o.lines
Matches-subtotals o (t, is, same) =
    let (e, a, v) = IsTotal-parts o.lines t is in
    subtotals t.currency o.total o.lines a same.1 v.currency (omega arith) (omega (arith, v.fits))
