-- ===== src/Infrastructure/Database/Adapter.antt =====
-- PostgresOrderRepository as a repository: it fills the interface that the cache relies on.
use pyfr_m8_verify.Errors.{Result, ok, raised}
use pyfr_m8_verify.Base.{
  Option, ℕ, List, ◌≡◌, some, ◌∙◌, if◌then◌else◌, none, ap, ◌==◌, map, refl, Bool-cases, inl,
  ==_iff, inr,
}
use pyfr_m8_verify.Infrastructure.Database.{
  corrupt_or, Session, OrderRow, load, get, save, OrderLineRow, postgres_order_repository,
  to_domain, order_values, line_values,
}
use pyfr_m8_verify.Domain.Order.{Order}
use pyfr_m8_verify.Infrastructure.Database.Repository.{SessionLaws, save_rolled_back, save-Holds}
use pyfr_m8_verify.Infrastructure.Cache.Laws.{RepositoryLaws}
use pyfr_m8_verify.Domain.Order.Valid.{IsValidOrder}
use pyfr_m8_verify.Errors.Exec.{continue, lift}
use pyfr_m8_verify.Infrastructure.Database.RoundTrip.{
  stored_row, two_places, to_domain-order_values, stored_line,
}

abbrev pub or_none : Result Order → Option Order
or_none (ok o) = some o
or_none (raised e) = none

-- What a row and its lines are read as.
unfoldable pub read_as : Option OrderRow → List OrderLineRow → Option Order
read_as none lines = none
read_as (some row) lines = or_none (to_domain row lines)

corrupt_or-read_as :
    (n : ℕ) (row : OrderRow) (lines : List OrderLineRow) (x : Option Order)
    → corrupt_or n (to_domain row lines) ≡ ok x
    → x ≡ read_as (some row) lines
unfolding corrupt_or read_as
corrupt_or-read_as n row lines x h = split (to_domain row lines) h
  where
    split : (r : Result Order) → corrupt_or n r ≡ ok x → x ≡ or_none r
    split (ok o) e = cc
    split (raised e) k = cc

module _ {D : Type 0} (session : Session D) (laws : SessionLaws session) where
  abbrev pub stored : D → ℕ → Option Order
  stored d n = read_as (laws.rows d n) (laws.lines d n)

  -- Two worlds with the same tables.
  abbrev pub Same : D → D → Type 0
  Same u d = (m : ℕ) → (laws.rows u m ≡ laws.rows d m) × (laws.lines u m ≡ laws.lines d m)

  lines-Same :
      (n : ℕ) (d : D) (r : Result Order → Result Order) (row : OrderRow)
      (q : Result (List OrderLineRow) × D)
      → Same q.1 d
      → Same (continue q.0 (λ lines. lift (corrupt_or n (to_domain row lines))) q.1).1 d
  lines-Same n d r row (ok ls, u) k = k
  lines-Same n d r row (raised e, u) k = k

  load-Same : (n : ℕ) (r : Option OrderRow) (u d : D) → Same u d → Same (load session n r u).1 d
  unfolding load
  load-Same n none u d k = k
  load-Same n (some row) u d k =
      lines-Same n d (λ r. r) row (session.select_lines n u)
        (λ m. (
          (laws.select_lines_keeps n u m).0 ∙ (k m).0,
          (laws.select_lines_keeps n u m).1 ∙ (k m).1,
        ))

  pub get-Same : (n : ℕ) (d : D) → Same (get session n d).1 d
  unfolding get
  get-Same n d = row (session.select_order n d) (λ m. laws.select_order_keeps n d m)
    where
      row :
          (q : Result (Option OrderRow) × D)
          → Same q.1 d
          → Same (continue q.0 (load session n) q.1).1 d
      row (ok r, u) k = load-Same n r u d k
      row (raised e, u) k = k

  lines_read :
      (n : ℕ) (row : OrderRow) (ls : List OrderLineRow) (x : Option Order)
      (q : Result (List OrderLineRow) × D)
      → ((l : List OrderLineRow) → q.0 ≡ ok l → l ≡ ls)
      → (continue q.0 (λ lines. lift (corrupt_or n (to_domain row lines))) q.1).0 ≡ ok x
      → x ≡ read_as (some row) ls
  lines_read n row ls x (raised e, u) k h = cc
  lines_read n row ls x (ok l, u) k h =
      corrupt_or-read_as n row l x h ∙ ap (read_as (some row)) (k l refl)

  load_reads :
      (n : ℕ) (r : Option OrderRow) (u : D) (ls : List OrderLineRow) (x : Option Order)
      → laws.lines u n ≡ ls
      → (load session n r u).0 ≡ ok x
      → x ≡ read_as r ls
  unfolding load read_as
  load_reads n none u ls x k h = cc
  load_reads n (some row) u ls x k h =
      lines_read n row ls x (session.select_lines n u) (λ l e. laws.select_lines n u l e ∙ k) h

  pub get_reads : (n : ℕ) (d : D) (x : Option Order) → (get session n d).0 ≡ ok x → x ≡ stored d n
  unfolding get
  get_reads n d x h =
      row (session.select_order n d) (λ r e. laws.select_order n d r e)
        (laws.select_order_keeps n d n).1 h
    where
      row :
          (q : Result (Option OrderRow) × D)
          → ((r : Option OrderRow) → q.0 ≡ ok r → r ≡ laws.rows d n)
          → laws.lines q.1 n ≡ laws.lines d n
          → (continue q.0 (load session n) q.1).0 ≡ ok x
          → x ≡ stored d n
      row (raised e, u) k l g = cc
      row (ok r, u) k l g =
          load_reads n r u (laws.lines d n) x l g ∙ ap (λ s. read_as s (laws.lines d n)) (k r refl)

  pub Same-stored :
      (u d : D) (m : ℕ)
      → (laws.rows u m ≡ laws.rows d m) × (laws.lines u m ≡ laws.lines d m)
      → stored u m ≡ stored d m
  Same-stored u d m k = rw (k.0, k.1) refl

  abbrev pub as_stored : Order → Option Order
  as_stored o = read_as (some (stored_row (order_values o))) (map stored_line (line_values o))

  pub save_stores :
      (o : Order) (d : D) (m : ℕ)
      → (save session o d).0 ≡ ok tt
      → stored (save session o d).1 m ≡ (if m == o.id then as_stored o else stored d m)
  save_stores o d m h =
      let k = save-Holds session laws o d h in
      elim (Bool-cases (m == o.id)) [
        | inl e ↦ rw (e, (==_iff m o.id).0 e, k.0.0, k.0.1) refl
        | inr e ↦ rw e (Same-stored (save session o d).1 d m (k.1 m e))
      ]

  unfoldable pub postgres_laws : RepositoryLaws (postgres_order_repository session)
  postgres_laws = record {
    stored = stored;
    as_stored = as_stored;
    get_reads = get_reads;
    get_keeps = λ n d m. Same-stored (get session n d).1 d m (get-Same n d m);
    save_stores = save_stores;
    save_fails =
        λ o d m e h. Same-stored (save session o d).1 d m (save_rolled_back session laws o d e m h);
  }

  -- A valid order is read back with its amounts at two places.
  pub as_stored-two_places : (o : Order) → IsValidOrder o → as_stored o ≡ some (two_places o)
  unfolding read_as
  as_stored-two_places o v = rw (to_domain-order_values o v) refl
