-- ===== src/Services/Command/Valid.antt =====
-- The commands that can be constructed.
use pyfr_m8_verify.Base.{
  ℕ, ◌+◌, ◌*◌, ◌≤◌, ◌≡◌, ◌∙◌, sym, refl, ◌↔◌, ◌⊎◌, inl, inr, true, false, List, [], ◌∷◌, arith, All,
  ltb, text_eq_iff, Text, length,
}
use pyfr_m8_verify.Errors.{ok}
use pyfr_m8_verify.Domain.Order.{
  Decimal, amount_ok, currency_ok, sku_ok, quantity_ok, add_decimal, mul_decimal,
}
use pyfr_m8_verify.Services.Command.{
  PlaceOrderLine, PlaceOrderCommand, insert_currency, currencies, sum_amounts, zero_decimal,
  max_order_total, new_command, new_place_order_line, RawDecimal,
}

abbrev pub PricedIn : Text → PlaceOrderLine → Type 0
PricedIn c l = l.currency ≡ c

-- What the command is worth, in hundredths.
abbrev pub worth : List PlaceOrderLine → ℕ
worth [] = 0
worth (l ∷ ls) = l.unit_amount.hundredths * l.quantity + worth ls

insert_currency-ne_nil : (c : Text) (ds : List Text) → insert_currency c ds ≡ [] → ⊥
unfolding insert_currency
insert_currency-ne_nil c [] h = cc
insert_currency-ne_nil c (d ∷ ds) h = ground arith

insert_currency-one :
    (c : Text) (ds : List Text) (d : Text)
    → insert_currency c ds ≡ d ∷ []
    → (c ≡ d) × ((ds ≡ []) ⊎ (ds ≡ d ∷ []))
unfolding insert_currency
insert_currency-one c [] d h = (ground arith, inl refl)
insert_currency-one c (x ∷ xs) d h = ground (arith, text_eq_iff c x, insert_currency-ne_nil c xs)

currencies-nil : (ls : List PlaceOrderLine) → currencies ls ≡ [] → ls ≡ []
unfolding currencies
currencies-nil [] h = refl
currencies-nil (l ∷ ls) h = absurd (insert_currency-ne_nil l.currency (currencies ls) h)

currencies-one :
    (ls : List PlaceOrderLine) (d : Text) → currencies ls ≡ d ∷ [] → All (PricedIn d) ls
unfolding currencies
currencies-one [] d h = tt
currencies-one (l ∷ ls) d h = elim (insert_currency-one l.currency (currencies ls) d h).1 [
  | inl e ↦ ((insert_currency-one l.currency (currencies ls) d h).0, rw (currencies-nil ls e) tt)
  | inr e ↦ ((insert_currency-one l.currency (currencies ls) d h).0, currencies-one ls d e)
]

one-currencies :
    (l : PlaceOrderLine) (ls : List PlaceOrderLine) (d : Text)
    → All (PricedIn d) (l ∷ ls)
    → currencies (l ∷ ls) ≡ d ∷ []
unfolding currencies
one-currencies l [] d h = ground arith
one-currencies l (m ∷ ls) d h =
    rw (one-currencies m ls d h.1) (ground (arith, text_eq_iff l.currency d))

short : (ds : List Text) → ltb 1 (length ds) ≡ false → (ds ≡ []) ⊎ ((d : Text) × (ds ≡ d ∷ []))
short [] h = inl refl
short (d ∷ []) h = inr (d, refl)
short (d ∷ e ∷ ds) h = absurd (ground arith)

sum_amounts-worth :
    (acc : Decimal) (ls : List PlaceOrderLine)
    → (sum_amounts acc ls).hundredths ≡ acc.hundredths + worth ls
unfolding sum_amounts
sum_amounts-worth acc [] = omega arith
sum_amounts-worth acc (l ∷ ls) =
    omega (arith, sum_amounts-worth (add_decimal acc (mul_decimal l.unit_amount l.quantity)) ls)

-- Lines in one currency that are worth no more than what an order can hold.
abbrev pub Acceptable : List PlaceOrderLine → Type 0
Acceptable [] = ⊥
Acceptable (l ∷ ls) = All (PricedIn l.currency) (l ∷ ls) × (worth (l ∷ ls) ≤ max_order_total)

pub PricedIn-subst :
    (c d : Text) (ls : List PlaceOrderLine) → c ≡ d → All (PricedIn c) ls → All (PricedIn d) ls
PricedIn-subst c d [] e a = tt
PricedIn-subst c d (l ∷ ls) e a = (a.0 ∙ e, PricedIn-subst c d ls e a.1)

shared :
    (l : PlaceOrderLine) (ls : List PlaceOrderLine)
    → ltb 1 (length (currencies (l ∷ ls))) ≡ false
    → All (PricedIn l.currency) (l ∷ ls)
shared l ls h = elim (short (currencies (l ∷ ls)) h) [
  | inl e ↦ absurd (insert_currency-ne_nil l.currency (currencies ls) (unfold currencies in e))
  | inr (d, e) ↦
      let a = currencies-one (l ∷ ls) d e in PricedIn-subst d l.currency (l ∷ ls) (sym a.0) a
]

checks :
    (ls : List PlaceOrderLine)
    → 1 ≤ length ls
    → ltb 1 (length (currencies ls)) ≡ false
    → ltb max_order_total (sum_amounts zero_decimal ls).hundredths ≡ false
    → Acceptable ls
checks [] n h k = absurd (omega arith)
checks (l ∷ ls) n h k = (shared l ls h, ground (arith, sum_amounts-worth zero_decimal (l ∷ ls)))

passes :
    (ls : List PlaceOrderLine)
    → Acceptable ls
    → (1 ≤ length ls)
      × (ltb 1 (length (currencies ls)) ≡ false)
      × (ltb max_order_total (sum_amounts zero_decimal ls).hundredths ≡ false)
passes [] h = absurd h
passes (l ∷ ls) h = (
  omega arith,
  rw (one-currencies l ls l.currency h.0) (ground arith),
  ground (arith, sum_amounts-worth zero_decimal (l ∷ ls)),
)

-- A command can be constructed exactly when it has a line, all its lines are in one currency, and
-- the sum of amount times quantity is at most the maximum order total; the object is what was given.
pub new_command_iff :
    (c d : PlaceOrderCommand) → (new_command c ≡ ok d) ↔ ((d ≡ c) × Acceptable c.lines)
unfolding new_command
new_command_iff c d = (
  λ h. (ground arith, checks c.lines (ground arith) (ground arith) (ground arith)),
  λ h. ground (arith, passes c.lines h.1),
)

-- What PlaceOrderLine accepts.
pub record IsValidPlaceOrderLine (l : PlaceOrderLine) : Type 0 where
  pub sku : sku_ok l.sku ≡ true
  pub quantity : quantity_ok l.quantity ≡ true
  pub amount : amount_ok l.unit_amount ≡ true
  pub currency : currency_ok l.currency ≡ true

pub new_place_order_line-IsValidPlaceOrderLine :
    (sku : Text) (quantity : ℕ) (unit_amount : RawDecimal) (currency : Text) (l : PlaceOrderLine)
    → new_place_order_line sku quantity unit_amount currency ≡ ok l
    → IsValidPlaceOrderLine l
unfolding new_place_order_line
new_place_order_line-IsValidPlaceOrderLine sku quantity unit_amount currency l h = ground arith
