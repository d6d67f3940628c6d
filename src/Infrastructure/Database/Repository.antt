-- ===== src/Infrastructure/Database/Repository.antt =====
-- The repository over a session that keeps PostgreSQL's promises.
use pyfr_m8_verify.Infrastructure.Database.{
  Session, replace, OrderRow, OrderLineRow, order_values, line_values, save, as_violation,
}
use pyfr_m8_verify.Base.{
  ℕ, Option, ◌≡◌, ◌==◌, some, false, List, if◌then◌else◌, map, [], ◌∙◌, arith, true, refl,
}
use pyfr_m8_verify.Domain.Order.{Order}
use pyfr_m8_verify.Errors.{ok, Result, Exception, raised}
use pyfr_m8_verify.Infrastructure.Database.RoundTrip.{stored_row, stored_line}
use pyfr_m8_verify.Errors.Exec.{Exec, continue, handle, ◌>>◌, pure, raise}

-- What the database promises of one session, where `rows` and `lines` are the two tables. A
-- statement that raises may have done anything; the transaction around it puts the tables back.
pub record SessionLaws {D : Type 0} (session : Session D) : Type 0 where
  pub rows : D → ℕ → Option OrderRow
  pub lines : D → ℕ → List OrderLineRow
  pub select_order :
      (n : ℕ) (d : D) (r : Option OrderRow) → (session.select_order n d).0 ≡ ok r → r ≡ rows d n
  pub select_order_keeps :
      (n : ℕ) (d : D) (m : ℕ)
      → (rows (session.select_order n d).1 m ≡ rows d m)
        × (lines (session.select_order n d).1 m ≡ lines d m)
  pub select_lines :
      (n : ℕ) (d : D) (l : List OrderLineRow) → (session.select_lines n d).0 ≡ ok l → l ≡ lines d n
  pub select_lines_keeps :
      (n : ℕ) (d : D) (m : ℕ)
      → (rows (session.select_lines n d).1 m ≡ rows d m)
        × (lines (session.select_lines n d).1 m ≡ lines d m)
  pub upsert :
      (r : OrderRow) (d : D) (m : ℕ)
      → (session.upsert_order r d).0 ≡ ok tt
      → (rows (session.upsert_order r d).1 m
          ≡ (if m == r.id then some (stored_row r) else rows d m))
        × (lines (session.upsert_order r d).1 m ≡ lines d m)
  pub delete :
      (n : ℕ) (d : D) (m : ℕ)
      → (session.delete_lines n d).0 ≡ ok tt
      → (rows (session.delete_lines n d).1 m ≡ rows d m)
        × (lines (session.delete_lines n d).1 m ≡ (if m == n then [] else lines d m))
  -- Rows for an order that has none, in the order of their line numbers.
  pub insert :
      (o : Order) (d : D) (m : ℕ)
      → lines d o.id ≡ []
      → (session.insert_lines (line_values o) d).0 ≡ ok tt
      → (rows (session.insert_lines (line_values o) d).1 m ≡ rows d m)
        × (lines (session.insert_lines (line_values o) d).1 m
            ≡ (if m == o.id then map stored_line (line_values o) else lines d m))
  pub committed :
      (body : Exec D (Unit {0})) (d : D)
      → (session.transaction body d).0 ≡ ok tt
      → ((body d).0 ≡ ok tt) × ((session.transaction body d).1 ≡ (body d).1)
  pub rolled_back :
      (body : Exec D (Unit {0})) (d : D) (e : Exception) (m : ℕ)
      → (session.transaction body d).0 ≡ raised e
      → (rows (session.transaction body d).1 m ≡ rows d m)
        × (lines (session.transaction body d).1 m ≡ lines d m)

-- The tables hold `o`.
abbrev pub Holds : {D : Type 0} {session : Session D} → SessionLaws session → D → Order → Type 0
Holds laws d o =
    (laws.rows d o.id ≡ some (stored_row (order_values o)))
    × (laws.lines d o.id ≡ map stored_line (line_values o))

module _ {D : Type 0} (session : Session D) (laws : SessionLaws session) where
  -- What of the tables concerns other orders than `n` is as before.
  abbrev pub OthersKept : ℕ → D → D → Type 0
  OthersKept n d d' =
      (m : ℕ)
      → (m == n) ≡ false
      → (laws.rows d' m ≡ laws.rows d m) × (laws.lines d' m ≡ laws.lines d m)

  -- The tables after a statement: the row of `o`, its lines, and what is kept of the others.
  abbrev Holding : Order → List OrderLineRow → D → D → Type 0
  Holding o ls d d' =
      (laws.rows d' o.id ≡ some (stored_row (order_values o)))
      × (laws.lines d' o.id ≡ ls)
      × OthersKept o.id d d'

  self_test : (n : ℕ) → (n == n) ≡ true
  self_test n = ground arith

  inserted :
      (o : Order) (d d2 : D)
      → Holding o [] d d2
      → (session.insert_lines (line_values o) d2).0 ≡ ok tt
      → Holding o (map stored_line (line_values o)) d (session.insert_lines (line_values o) d2).1
  inserted o d d2 (row, none_left, kept) e = (
    (laws.insert o d2 o.id none_left e).0 ∙ row,
    rw (self_test o.id) at (laws.insert o d2 o.id none_left e).1,
    λ m ne. (
      (laws.insert o d2 m none_left e).0 ∙ (kept m ne).0,
      (rw ne at (laws.insert o d2 m none_left e).1) ∙ (kept m ne).1,
    ),
  )

  deleted :
      (o : Order) (d d1 : D) (q : Result (Unit {0}) × D)
      → (ls : List OrderLineRow) → Holding o ls d d1
      → ((m : ℕ)
          → q.0 ≡ ok tt
          → (laws.rows q.1 m ≡ laws.rows d1 m)
            × (laws.lines q.1 m ≡ (if m == o.id then [] else laws.lines d1 m)))
      → (continue q.0 (λ _. session.insert_lines (line_values o)) q.1).0 ≡ ok tt
      → Holding o
          (map stored_line (line_values o))
          d
          (continue q.0 (λ _. session.insert_lines (line_values o)) q.1).1
  deleted o d d1 (raised x, u) ls held step e = cc
  deleted o d d1 (ok x, u) ls (row, old, kept) step e =
      inserted o d u
        (
          (step o.id refl).0 ∙ row,
          rw (self_test o.id) at (step o.id refl).1,
          λ m ne. ((step m refl).0 ∙ (kept m ne).0, (rw ne at (step m refl).1) ∙ (kept m ne).1),
        )
        e

  upserted :
      (o : Order) (d : D) (q : Result (Unit {0}) × D)
      → ((m : ℕ)
          → q.0 ≡ ok tt
          → (laws.rows q.1 m
              ≡ (if m == o.id then some (stored_row (order_values o)) else laws.rows d m))
            × (laws.lines q.1 m ≡ laws.lines d m))
      → (continue q.0
          (λ _. session.delete_lines o.id >> session.insert_lines (line_values o))
          q.1).0
        ≡ ok tt
      → Holding o
          (map stored_line (line_values o))
          d
          (continue q.0
            (λ _. session.delete_lines o.id >> session.insert_lines (line_values o))
            q.1).1
  upserted o d (raised x, u) step e = cc
  upserted o d (ok x, u) step e =
      deleted o d u (session.delete_lines o.id u) (laws.lines d o.id)
        (
          rw (self_test o.id) at (step o.id refl).0,
          (step o.id refl).1,
          λ m ne. (rw ne at (step m refl).0, (step m refl).1),
        )
        (λ m. laws.delete o.id u m) e

  replaced :
      (o : Order) (d : D)
      → (replace session o d).0 ≡ ok tt
      → Holding o (map stored_line (line_values o)) d (replace session o d).1
  unfolding replace order_values
  replaced o d h =
      upserted o d (session.upsert_order (order_values o) d) (λ m. laws.upsert (order_values o) d m)
        h

  ended :
      (r : Result (Unit {0})) (u : D)
      → (handle r (λ x. pure x) (λ e. raise (as_violation e)) u).1 ≡ u
  ended (ok x) u = refl
  ended (raised e) u = refl

  ended-ok :
      (r : Result (Unit {0})) (u : D)
      → (handle r (λ x. pure x) (λ e. raise (as_violation e)) u).0 ≡ ok tt
      → r ≡ ok tt
  ended-ok (ok x) u h = refl
  ended-ok (raised e) u h = cc

  ended-raised :
      (r : Result (Unit {0})) (u : D) (e : Exception)
      → (handle r (λ x. pure x) (λ e. raise (as_violation e)) u).0 ≡ raised e
      → (x : Exception) × (r ≡ raised x)
  ended-raised (ok x) u e h = cc
  ended-raised (raised x) u e h = (x, refl)

  -- Over a session that keeps PostgreSQL's promises, a save that succeeds leaves the tables with
  -- the rows of the order and nothing else changed: its lines are replaced as a whole, and the
  -- rows and lines of every other order are as before.
  pub save-Holds :
      (o : Order) (d : D)
      → (save session o d).0 ≡ ok tt
      → Holds laws (save session o d).1 o × OthersKept o.id d (save session o d).1
  unfolding save
  save-Holds o d h =
      let t = ended-ok (session.transaction (replace session o) d).0 _ h in
      let c = laws.committed (replace session o) d t in
      let k = replaced o d c.0 in
      rw (ended (session.transaction (replace session o) d).0 _, c.1) ((k.0, k.1), k.2)

  -- Over a session that keeps PostgreSQL's promises, a save that raises leaves both tables as
  -- they were.
  pub save_rolled_back :
      (o : Order) (d : D) (e : Exception) (m : ℕ)
      → (save session o d).0 ≡ raised e
      → (laws.rows (save session o d).1 m ≡ laws.rows d m)
        × (laws.lines (save session o d).1 m ≡ laws.lines d m)
  unfolding save
  save_rolled_back o d e m h =
      let (x, t) = ended-raised (session.transaction (replace session o) d).0 _ e h in
      rw (ended (session.transaction (replace session o) d).0 _)
        (laws.rolled_back (replace session o) d x m t)
