-- ===== src/Domain/Order/Totals.antt =====
-- When `total_of` answers, and with what.
use Prim.Native.Nat.{max}
use pyfr_m8_verify.Base.{
  ℕ, ◌+◌, ◌*◌, ◌≤◌, ◌≡◌, ◌∙◌, sym, ◌↔◌, true, List, [], ◌∷◌, arith, All, text_eq_iff, Text, ap,
  refl,
}
use pyfr_m8_verify.Errors.{ok}
use pyfr_m8_verify.Errors.Exec.{bind_result-eq_ok}
use pyfr_m8_verify.Domain.Order.{
  Decimal, Money, OrderLine, max_amount, amount_ok, currency_ok, new_money, add, mul, subtotal,
  add_lines, total_of, clip,
}
use pyfr_m8_verify.Domain.Order.Places.{clip-clip, clip-next, clip-max}

-- The sum that the total stands for, in hundredths.
abbrev pub sum_lines : List OrderLine → ℕ
sum_lines [] = 0
sum_lines (l ∷ ls) = l.unit_price.hundredths * l.quantity + sum_lines ls

-- The longest unit price, in places.
abbrev pub max_places : List OrderLine → ℕ
max_places [] = 0
max_places (l ∷ ls) = max l.unit_price.places (max_places ls)

abbrev pub money : ℕ → ℕ → Text → Money
money hundredths places currency = record {
  amount = record { hundredths = hundredths; places = places };
  currency = currency;
}

abbrev pub InCurrency : Text → OrderLine → Type 0
InCurrency c l = l.unit_price.currency ≡ c

-- The values that pydantic accepts.
pub record IsValidMoney (m : Money) : Type 0 where
  pub fits : m.hundredths ≤ max_amount
  pub currency : currency_ok m.currency ≡ true

pub new_money_iff :
    (a : Decimal) (c : Text) (m : Money)
    → (new_money a c ≡ ok m)
      ↔ ((m.amount ≡ a) × (m.currency ≡ c) × (a.hundredths ≤ max_amount) × (currency_ok c ≡ true))
unfolding new_money amount_ok
new_money_iff a c m = (λ h. ground arith, λ h. ground arith)

add-exact :
    (m n t : Money)
    → add m n ≡ ok t
    → (t.hundredths ≡ m.hundredths + n.hundredths)
      × (t.currency ≡ m.currency)
      × (n.currency ≡ m.currency)
      × (t.places ≡ clip t.hundredths (max m.places n.places))
unfolding add new_money
add-exact m n t h = ground (arith, text_eq_iff n.currency m.currency)

add_complete :
    (m n : Money)
    → n.currency ≡ m.currency
    → currency_ok m.currency ≡ true
    → m.hundredths + n.hundredths ≤ max_amount
    → add m n
      ≡ ok (
          money
            (m.hundredths + n.hundredths)
            (clip (m.hundredths + n.hundredths) (max m.places n.places))
            m.currency)
unfolding add new_money amount_ok
add_complete m n e c h = ground (arith, text_eq_iff n.currency m.currency)

pub subtotal-exact :
    (l : OrderLine) (s : Money)
    → subtotal l ≡ ok s
    → (s.hundredths ≡ l.unit_price.hundredths * l.quantity)
      × (s.currency ≡ l.unit_price.currency)
      × IsValidMoney s
      × (s.places ≡ clip s.hundredths l.unit_price.places)
unfolding subtotal mul new_money amount_ok
subtotal-exact l s h = ground arith

pub subtotal_complete :
    (l : OrderLine)
    → currency_ok l.unit_price.currency ≡ true
    → l.unit_price.hundredths * l.quantity ≤ max_amount
    → subtotal l
      ≡ ok (
          money
            (l.unit_price.hundredths * l.quantity)
            (clip (l.unit_price.hundredths * l.quantity) l.unit_price.places)
            l.unit_price.currency)
unfolding subtotal mul new_money amount_ok
subtotal_complete l c h = ground arith

-- What an addition that succeeds says of the rest of the list.
abbrev Adds : Money → List OrderLine → Money → Type 0
Adds m ls t =
    (t.hundredths ≡ m.hundredths + sum_lines ls)
    × (t.currency ≡ m.currency)
    × All (InCurrency m.currency) ls
    × IsValidMoney t
    × (t.places ≡ clip t.hundredths (max m.places (max_places ls)))

-- The amount is written with no more places than the context keeps.
abbrev IsCut : Money → Type 0
IsCut m = clip m.hundredths m.places ≡ m.places

add-IsValid : (m n t : Money) → add m n ≡ ok t → IsValidMoney t
unfolding add new_money amount_ok
add-IsValid m n t h = ground arith

retarget :
    (c d : Text) (ls : List OrderLine) → c ≡ d → All (InCurrency c) ls → All (InCurrency d) ls
retarget c d [] e a = tt
retarget c d (l ∷ ls) e a = (a.0 ∙ e, retarget c d ls e a.1)

places-IsCut : (m : Money) (p : ℕ) → m.places ≡ clip m.hundredths p → IsCut m
places-IsCut m p e =
    ap (clip m.hundredths) e ∙ (clip-clip m.hundredths m.hundredths p (omega arith) ∙ sym e)

next_places :
    (m s r t : Money) (p q : ℕ)
    → r.places ≡ clip r.hundredths (max m.places s.places)
    → s.places ≡ clip s.hundredths p
    → r.hundredths ≤ t.hundredths
    → s.hundredths ≤ t.hundredths
    → clip t.hundredths (max r.places q) ≡ clip t.hundredths (max m.places (max p q))
next_places m s r t p q x y hr hs =
    ap (λ n. clip t.hundredths (max n q)) (x ∙ ap (λ n. clip r.hundredths (max m.places n)) y)
    ∙ clip-next r.hundredths s.hundredths t.hundredths m.places p q hr hs

add_lines-exact :
    (m : Money) (ls : List OrderLine) (t : Money)
    → IsValidMoney m
    → IsCut m
    → add_lines m ls ≡ ok t
    → Adds m ls t
unfolding add_lines
add_lines-exact m [] t v i h = ground (arith, i)
add_lines-exact m (l ∷ ls) t v i h =
    let (s, p, h') = bind_result-eq_ok (subtotal l) _ h in
    let (r, q, k) = bind_result-eq_ok (add m s) _ h' in
    let x = subtotal-exact l s p in
    let y = add-exact m s r q in
    let z = add_lines-exact r ls t (add-IsValid m s r q) (places-IsCut r _ y.3) k in
    (
      omega (arith, x.0, y.0, z.0),
      z.1 ∙ y.1,
      (sym x.1 ∙ y.2, retarget _ _ ls y.1 z.2),
      z.3,
      z.4
          ∙ next_places m s r t l.unit_price.places (max_places ls) y.3 x.3 (omega (arith, z.0))
              (omega (arith, y.0, z.0)),
    )

add_lines_complete :
    (m : Money) (ls : List OrderLine)
    → All (InCurrency m.currency) ls
    → currency_ok m.currency ≡ true
    → IsCut m
    → m.hundredths + sum_lines ls ≤ max_amount
    → add_lines m ls
      ≡ ok (
          money
            (m.hundredths + sum_lines ls)
            (clip (m.hundredths + sum_lines ls) (max m.places (max_places ls)))
            m.currency)
unfolding add_lines
add_lines_complete m [] a c i h =
    ap (λ (p : ℕ). ok (money m.hundredths p m.currency)) (sym i) ∙ ground arith
add_lines_complete m (l ∷ ls) a c i h =
    let amount = l.unit_price.hundredths * l.quantity in
    let s = money amount (clip amount l.unit_price.places) l.unit_price.currency in
    let places = clip (m.hundredths + amount) (max m.places s.places) in
    let r = money (m.hundredths + amount) places m.currency in
    rw (subtotal_complete l (rw a.0 c) (omega arith), add_lines)
      (rw (add_complete m s a.0 c (omega arith), add_lines)
        (add_lines_complete r ls a.1 c (places-IsCut r _ refl) (omega arith)
          ∙ written _ _ _ _ (omega arith) (
              next_places m s r (money (m.hundredths + (amount + sum_lines ls)) 0 []) _ _ refl refl
                (omega arith) (omega arith))))
  where
    written :
        (h k p q : ℕ)
        → h ≡ k
        → clip k p ≡ clip k q
        → ok (money h (clip h p) m.currency) ≡ ok (money k (clip k q) m.currency)
    written h k p q e f = cc

first_places :
    (s t : Money) (p q : ℕ)
    → s.places ≡ clip s.hundredths p
    → s.hundredths ≤ t.hundredths
    → clip t.hundredths (max s.places q) ≡ clip t.hundredths (max p q)
first_places s t p q e h =
    ap (λ n. clip t.hundredths (max n q)) e
    ∙ (clip-max t.hundredths (clip s.hundredths p) q
        ∙ (ap (λ n. max n (clip t.hundredths q)) (clip-clip s.hundredths t.hundredths p h)
            ∙ sym (clip-max t.hundredths p q)))

same_total :
    (h p : ℕ) (c : Text) (t : Money)
    → h ≡ t.hundredths
    → c ≡ t.currency
    → t.places ≡ clip t.hundredths p
    → ok (money h (clip h p) c) ≡ ok t
same_total h p c t e f g = cc

-- The sum of the lines is right, in one currency, and within what `Money` holds.
abbrev pub IsTotal : List OrderLine → Money → Type 0
IsTotal [] t = ⊥
IsTotal (l ∷ ls) t =
    (t.hundredths ≡ sum_lines (l ∷ ls))
    × All (InCurrency t.currency) (l ∷ ls)
    × IsValidMoney t
    × (t.places ≡ clip t.hundredths (max_places (l ∷ ls)))

pub IsTotal-parts :
    (ls : List OrderLine) (t : Money)
    → IsTotal ls t
    → (t.hundredths ≡ sum_lines ls) × All (InCurrency t.currency) ls × IsValidMoney t
IsTotal-parts [] t h = absurd h
IsTotal-parts (l ∷ ls) t h = (h.0, h.1, h.2)

-- `total_of` answers `t` exactly when there is a line, all lines are in the currency of `t`, the
-- amount of `t` is the sum of unit price times quantity, written with as many places as the longest
-- unit price, or with the most of them that leave it no more than 28 digits, and `t` is a value that
-- `Money` accepts.
pub total_of_iff : (lines : List OrderLine) (t : Money) → (total_of lines ≡ ok t) ↔ IsTotal lines t
unfolding total_of
total_of_iff [] t = (λ h. cc, λ h. absurd h)
total_of_iff (l ∷ ls) t = (exact, complete)
  where
    exact : total_of (l ∷ ls) ≡ ok t → IsTotal (l ∷ ls) t
    exact h =
        let (s, p, k) = bind_result-eq_ok (subtotal l) _ h in
        let x = subtotal-exact l s p in
        let z = add_lines-exact s ls t x.2 (places-IsCut s _ x.3) k in
        (
          omega (arith, x.0, z.0),
          (sym (z.1 ∙ x.1), retarget _ _ ls (sym z.1) z.2),
          z.3,
          z.4 ∙ first_places s t l.unit_price.places (max_places ls) x.3 (omega (arith, z.0)),
        )

    complete : IsTotal (l ∷ ls) t → total_of (l ∷ ls) ≡ ok t
    complete h =
        let c : currency_ok l.unit_price.currency ≡ true = rw h.1.0 h.2.currency in
        let amount = l.unit_price.hundredths * l.quantity in
        let s = money amount (clip amount l.unit_price.places) l.unit_price.currency in
        let fits : amount + sum_lines ls ≤ max_amount = omega (arith, h.0, h.2.fits) in
        rw (subtotal_complete l c (omega arith)) (
          add_lines_complete s ls (retarget _ _ ls (sym h.1.0) h.1.1) c (places-IsCut s _ refl) fits
          ∙ same_total _ _ _ t (sym h.0) h.1.0 (
              h.3
              ∙ sym
                  (first_places s t l.unit_price.places (max_places ls) refl (omega (arith, h.0)))))
