-- ===== src/Tests/Database.antt =====
-- infrastructure/db/ over tables that are functions of an order's identifier.
use pyfr_m8_verify.Infrastructure.Database.{
  get, save, to_domain, replace, load, order_values, as_violation, corrupt_or, line_to_domain,
  lines_to_domain,
}
use pyfr_m8_verify.Infrastructure.Database.{
  Session, number_lines, line_values, OrderLineRow, OrderRow,
}
use pyfr_m8_verify.Base.{
  ℕ, List, Option, ◌≡◌, ◌∷◌, if◌then◌else◌, ◌==◌, [], arith, ◌++◌, some, ◌+◌, false, map, refl,
  Bool-cases, inl, ==_iff, inr, none, text_eq,
}
use pyfr_m8_verify.Errors.{Result, ok, Exception, raised, other}
use pyfr_m8_verify.Infrastructure.Database.Repository.{SessionLaws, Holds, save-Holds}
use pyfr_m8_verify.Domain.Order.{
  OrderLine, Order, sku_ok, quantity_ok, currency_ok, new_money, amount_ok, new_order_line,
  new_order, total_must_match_lines, total_of, subtotal, mul, add, money_eq,
}
use pyfr_m8_verify.Infrastructure.Database.RoundTrip.{
  stored_line, stored_row, two_places, to_domain-order_values,
}
use pyfr_m8_verify.Tests.Orders.{breakfast, breakfast-Matches}
use pyfr_m8_verify.Domain.Order.Valid.{IsValidOrder}

abbrev pub Tables : Type 0
Tables = (ℕ → Option OrderRow) × (ℕ → List OrderLineRow)

unfoldable pub of_order : ℕ → List OrderLineRow → List OrderLineRow
of_order m [] = []
of_order m (l ∷ ls) = let rest = of_order m ls in if m == l.order_id then l ∷ rest else rest

unfoldable pub added : List OrderLineRow → List OrderLineRow → List OrderLineRow
added old [] = old
added old (l ∷ ls) = old ++ map stored_line (l ∷ ls)

unfoldable pub ended : Tables → Result (Unit {0}) × Tables → Result (Unit {0}) × Tables
ended d (ok x, u) = (ok tt, u)
ended d (raised e, u) = (raised e, d)

-- An insertion of lines ends as `outcome` says.
unfoldable pub tables : Result (Unit {0}) → Session Tables
unfolding ended added of_order
tables outcome = record {
  select_order = λ n d. (ok (d.0 n), d);
  select_lines = λ n d. (ok (d.1 n), d);
  upsert_order = λ r d. (ok tt, (λ m. if m == r.id then some (stored_row r) else d.0 m, d.1));
  delete_lines = λ n d. (ok tt, (d.0, λ m. if m == n then [] else d.1 m));
  insert_lines = λ ls d. (outcome, (d.0, λ m. added (d.1 m) (of_order m ls)));
  transaction = λ body d. ended d (body d);
}

of_order-own :
    (n k : ℕ) (ls : List OrderLine) → of_order n (number_lines n k ls) ≡ number_lines n k ls
unfolding of_order number_lines
of_order-own n k [] = refl
of_order-own n k (l ∷ ls) = ground (arith, of_order-own n (k + 1) ls)

of_order-others :
    (m n k : ℕ) (ls : List OrderLine) → (m == n) ≡ false → of_order m (number_lines n k ls) ≡ []
unfolding of_order number_lines
of_order-others m n k [] h = refl
of_order-others m n k (l ∷ ls) h = rw h (of_order-others m n (k + 1) ls h)

added_nil : (ls : List OrderLineRow) → added [] ls ≡ map stored_line ls
unfolding added
added_nil [] = refl
added_nil (l ∷ ls) = refl

pub inserted :
    (o : Order) (d : Tables) (m : ℕ)
    → d.1 o.id ≡ []
    → added (d.1 m) (of_order m (line_values o))
      ≡ (if m == o.id then map stored_line (line_values o) else d.1 m)
unfolding line_values added
inserted o d m h = elim (Bool-cases (m == o.id)) [
  | inl e ↦
      rw (e, (==_iff m o.id).0 e, h, of_order-own o.id 0 o.lines)
        (added_nil (number_lines o.id 0 o.lines))
  | inr e ↦ rw (e, of_order-others m o.id 0 o.lines e) refl
]

pub ended-ok :
    (d : Tables) (q : Result (Unit {0}) × Tables)
    → (ended d q).0 ≡ ok tt
    → (q.0 ≡ ok tt) × ((ended d q).1 ≡ q.1)
unfolding ended
ended-ok d (ok x, u) h = (refl, refl)
ended-ok d (raised e, u) h = cc

pub ended-raised :
    (d : Tables) (q : Result (Unit {0}) × Tables) (e : Exception)
    → (ended d q).0 ≡ raised e
    → (ended d q).1 ≡ d
unfolding ended
ended-raised d (ok x, u) e h = cc
ended-raised d (raised x, u) e h = refl

pub select_order-reads :
    (outcome : Result (Unit {0})) (n : ℕ) (d : Tables) (r : Option OrderRow)
    → ((tables outcome).select_order n d).0 ≡ ok r
    → r ≡ d.0 n
unfolding tables
select_order-reads outcome n d r h = ground arith

pub select_lines-reads :
    (outcome : Result (Unit {0})) (n : ℕ) (d : Tables) (r : List OrderLineRow)
    → ((tables outcome).select_lines n d).0 ≡ ok r
    → r ≡ d.1 n
unfolding tables
select_lines-reads outcome n d r h = ground arith

unfoldable pub tables_laws : (outcome : Result (Unit {0})) → SessionLaws (tables outcome)
unfolding tables
tables_laws outcome = record {
  rows = λ d n. d.0 n;
  lines = λ d n. d.1 n;
  select_order = select_order-reads outcome;
  select_order_keeps = λ n d m. (refl, refl);
  select_lines = select_lines-reads outcome;
  select_lines_keeps = λ n d m. (refl, refl);
  upsert = λ r d m h. (refl, refl);
  delete = λ n d m h. (refl, refl);
  insert = λ o d m e h. (refl, inserted o d m e);
  committed = λ body d h. ended-ok d (body d) h;
  rolled_back = λ body d e m h. rw (ended-raised d (body d) e h) (refl, refl);
}

abbrev pub empty : Tables
empty = (λ n. none, λ n. [])

pub breakfast-IsValidOrder : IsValidOrder breakfast
unfolding sku_ok quantity_ok currency_ok
breakfast-IsValidOrder = record {
  lines = (
    record {
      sku = refl;
      quantity = refl;
      unit_price = record { fits = omega arith; currency = refl };
    },
    (
      record {
        sku = refl;
        quantity = refl;
        unit_price = record { fits = omega arith; currency = refl };
      },
      tt,
    ),
  );
  total = breakfast-Matches;
}

to_domain-order_values_example :
    to_domain (stored_row (order_values breakfast)) (map stored_line (line_values breakfast))
    ≡ ok (two_places breakfast)
to_domain-order_values_example = to_domain-order_values breakfast breakfast-IsValidOrder

pub breakfast_saves : (save (tables (ok tt)) breakfast empty).0 ≡ ok tt
unfolding save replace tables ended as_violation
breakfast_saves = refl

abbrev after : Tables
after = (save (tables (ok tt)) breakfast empty).1

after-Holds : Holds (tables_laws (ok tt)) after breakfast
after-Holds = (save-Holds (tables (ok tt)) (tables_laws (ok tt)) breakfast empty breakfast_saves).0

breakfast_loads : (get (tables (ok tt)) 7 after).0 ≡ ok (some (two_places breakfast))
unfolding get load corrupt_or save replace tables ended as_violation order_values line_values
    number_lines to_domain line_to_domain lines_to_domain new_money amount_ok currency_ok
    new_order_line sku_ok quantity_ok new_order total_must_match_lines total_of subtotal mul add
    text_eq money_eq
breakfast_loads = refl

abbrev timeout : Exception
timeout = other

breakfast_fails : (save (tables (raised timeout)) breakfast empty).0 ≡ raised timeout
unfolding save replace tables ended as_violation
breakfast_fails = refl
