-- ===== src/Infrastructure/Database/Reading.antt =====
-- Reading an order back.
use pyfr_m8_verify.Infrastructure.Database.{
  as_corrupt, Session, constraint_summary, corrupt_or, load, OrderLineRow, OrderRow, line_values,
  order_values, to_domain, get,
}
use pyfr_m8_verify.Base.{ℕ, ◌≢◌, Text, List, Option, ◌≡◌, arith, refl, map, some, ◌∙◌, none}
use pyfr_m8_verify.Infrastructure.Database.Repository.{SessionLaws, Holds}
use pyfr_m8_verify.Errors.{DriverError, Exception, Result, validation_error, raised, ok}
use pyfr_m8_verify.Domain.Order.{Order}
use pyfr_m8_verify.Domain.Order.Valid.{IsValidOrder}
use pyfr_m8_verify.Infrastructure.Database.RoundTrip.{
  stored_line, stored_row, two_places, to_domain-order_values,
}
use pyfr_m8_verify.Errors.Exec.{continue-ne_raised, continue, lift}

as_corrupt-ne : (n : ℕ) (e : Exception) → as_corrupt n e ≢ validation_error
unfolding as_corrupt
as_corrupt-ne n e h = ground arith

module _ {D : Type 0} (session : Session D) (laws : SessionLaws session) where
  read_lines :
      (o : Order) (q : Result (List OrderLineRow) × D) (x : Option Order)
      → IsValidOrder o
      → ((l : List OrderLineRow) → q.0 ≡ ok l → l ≡ map stored_line (line_values o))
      → (continue q.0
          (λ lines. lift (corrupt_or o.id (to_domain (stored_row (order_values o)) lines)))
          q.1).0
        ≡ ok x
      → x ≡ some (two_places o)
  unfolding corrupt_or
  read_lines o (raised e, d) x v k h = cc
  read_lines o (ok lines, d) x v k h =
      loaded (rw (k lines refl, to_domain-order_values o v, corrupt_or) at h)
    where
      loaded : ok (some (two_places o)) ≡ ok x → x ≡ some (two_places o)
      loaded e = cc

  read_row :
      (o : Order) (q : Result (Option OrderRow) × D) (x : Option Order)
      → IsValidOrder o
      → ((r : Option OrderRow) → q.0 ≡ ok r → r ≡ some (stored_row (order_values o)))
      → laws.lines q.1 o.id ≡ map stored_line (line_values o)
      → (continue q.0 (load session o.id) q.1).0 ≡ ok x
      → x ≡ some (two_places o)
  unfolding load
  read_row o (raised e, d) x v k l h = cc
  read_row o (ok none, d) x v k l h = cc (k none refl)
  read_row o (ok (some row), d) x v k l h =
      read_lines o (session.select_lines o.id d) x v (λ ls e. laws.select_lines o.id d ls e ∙ l)
        (rw (same (k (some row) refl)) at h)
    where
      same : some row ≡ some (stored_row (order_values o)) → row ≡ stored_row (order_values o)
      same e = cc

  -- Over a session that keeps PostgreSQL's promises: when the tables hold a valid order and
  -- `get` answers, the answer is that order with its amounts at two places.
  pub get-Holds :
      (o : Order) (d : D) (x : Option Order)
      → IsValidOrder o
      → Holds laws d o
      → (get session o.id d).0 ≡ ok x
      → x ≡ some (two_places o)
  unfolding get
  get-Holds o d x v held h =
      read_row o (session.select_order o.id d) x v (λ r e. laws.select_order o.id d r e ∙ held.0)
        ((laws.select_order_keeps o.id d o.id).1 ∙ held.1) h

module _ {D : Type 0} (session : Session D) where
  corrupt-ne : (n : ℕ) (r : Result Order) → corrupt_or n r ≢ raised validation_error
  unfolding corrupt_or
  corrupt-ne n (ok o) h = cc
  corrupt-ne n (raised e) h = as_corrupt-ne n e (ground arith)

  -- Whatever rows are stored, if the two selects raise no ValidationError then reading an order
  -- raises none: rows that the domain refuses become CorruptPersistedDataError.
  pub get-ne_validation_error :
      (n : ℕ) (d : D)
      → ((u : D) → (session.select_order n u).0 ≢ raised validation_error)
      → ((u : D) → (session.select_lines n u).0 ≢ raised validation_error)
      → (get session n d).0 ≢ raised validation_error
  unfolding get
  get-ne_validation_error n d rows lines = continue-ne_raised _ _ _ _ (rows d) λ r u. loaded r u
    where
      loaded : (r : Option OrderRow) (u : D) → (load session n r u).0 ≢ raised validation_error
      loaded none u = unfold load in λ e. cc
      loaded (some row) u =
          unfold load in
          continue-ne_raised _ _ _ _ (lines u) λ ls w. corrupt-ne n (to_domain row ls)

-- The message of a rejected write is made of the three identifiers: the server's text, which may
-- quote the rejected row, has no influence on it.
pub constraint_summary-detail :
    (e : DriverError) (text : Text)
    → constraint_summary (record e { detail = text }) ≡ constraint_summary e
unfolding constraint_summary
constraint_summary-detail e text = refl
