-- ===== src/Seed/Recorded.antt =====
-- After a run that succeeded, every seed order is in the state file.
use pyfr_m8_verify.Seed.{
  SeedEnvironment, finish, record_order, create, seed_one, Payload, Reply, orders_path, SeededOrder,
  or_empty, ensure_receipt, check_existing, report_existing, seed_known, order_path,
}
use pyfr_m8_verify.Seed.Idempotent.{SeedLaws, ensure_receipt-Kept}
use pyfr_m8_verify.Base.{
  Text, List, Bool, find, ◌≡◌, assign, some, find-assign, Bool-cases, if◌then◌else◌, Option-cases,
  ◌∙◌, text_eq_refl, text_eq, sym, ◌==◌, inl, ap, inr, true, false, refl,
}
use pyfr_m8_verify.Errors.{Result, ok, raised, seed_error}
use pyfr_m8_verify.Errors.Exec.{continue, ◌>>◌, lift, ◌>>=◌, raise, pure}

module _ {S : Type 0} (env : SeedEnvironment S) (laws : SeedLaws env) where
  -- What the end of a round reports: the dict as it was, the identifier, and the file as it was.
  abbrev Reports :
      S → Text → List (Text × Text) → Result (SeededOrder × List (Text × Text)) × S → Type 0
  Reports s id known (ok one, t) =
      (one.1 ≡ known) × (one.0.order_id ≡ id) × (laws.file t ≡ laws.file s)
  Reports s id known (raised e, t) = Unit {0}

  report-Reports :
      (key id : Text) (created : Bool) (known : List (Text × Text)) (r : Reply) (s : S)
      → Reports s id known (
          continue {B = SeededOrder × List (Text × Text)}
            (ensure_receipt env id s).0
            (λ x. lift r.total >>= λ total.
              pure (record { key = key; order_id = id; total = total; created = created }, known))
            (ensure_receipt env id s).1)
  report-Reports key id created known r s =
      receipt (ensure_receipt env id s) (ensure_receipt-Kept env laws id s).1
    where
      read :
          (x : Result Text) (t : S)
          → laws.file t ≡ laws.file s
          → Reports s id known (
              continue {B = SeededOrder × List (Text × Text)} x
                (λ total.
                  pure
                    (record { key = key; order_id = id; total = total; created = created }, known))
                t)
      read (ok total) t k = (refl, refl, k)
      read (raised e) t k = tt

      receipt :
          (q : Result (Unit {0}) × S)
          → laws.file q.1 ≡ laws.file s
          → Reports s id known (
              continue {B = SeededOrder × List (Text × Text)} q.0
                (λ x. lift r.total >>= λ total.
                  pure
                    (record { key = key; order_id = id; total = total; created = created }, known))
                q.1)
      receipt (ok x, t) k = read r.total t k
      receipt (raised e, t) k = tt

  -- What a round leaves: the dict is what the file holds, the key is in it, and so is every other key
  -- that was.
  abbrev pub Records :
      Text → List (Text × Text) → Result (SeededOrder × List (Text × Text)) × S → Type 0
  Records key known (ok one, t) =
      (one.1 ≡ or_empty (laws.file t))
      × (find key one.1 ≡ some one.0.order_id)
      × ((j i : Text) → find j known ≡ some i → (i' : Text) × (find j one.1 ≡ some i'))
  Records key known (raised e, t) = Unit {0}

  Records-of_Reports :
      (key id : Text) (known d : List (Text × Text)) (s : S)
      (q : Result (SeededOrder × List (Text × Text)) × S)
      → d ≡ or_empty (laws.file s)
      → find key d ≡ some id
      → ((j i : Text) → find j known ≡ some i → (i' : Text) × (find j d ≡ some i'))
      → Reports s id d q
      → Records key known q
  Records-of_Reports key id known d s (raised e, t) f k g h = tt
  Records-of_Reports key id known d s (ok one, t) f k g (same, is, file) =
      (same ∙ f ∙ ap or_empty (sym file), rw (same, is) k, λ j i e. rw same (g j i e))

  find-assign_self :
      (key id : Text) (known : List (Text × Text)) → find key (assign key id known) ≡ some id
  find-assign_self key id known = rw (find-assign key key id known, text_eq_refl key)

  assign-grows :
      (key id j i : Text) (known : List (Text × Text))
      → find j known ≡ some i
      → (i' : Text) × (find j (assign key id known) ≡ some i')
  assign-grows key id j i known h = elim (Bool-cases (text_eq key j)) [
    | inl e ↦ (id, rw (find-assign key j id known, e))
    | inr e ↦ (i, rw (find-assign key j id known, e) h)
  ]

  written :
      (key id : Text) (known : List (Text × Text)) (r : Reply) (q : Result (Unit {0}) × S)
      → (q.0 ≡ ok tt → laws.file q.1 ≡ some (assign key id known))
      → Records key known (continue q.0 (λ x. finish env key r id (assign key id known)) q.1)
  unfolding finish
  written key id known r (raised e, t) h = tt
  written key id known r (ok x, t) h =
      Records-of_Reports key id known (assign key id known) t _ (sym (ap or_empty (h refl)))
        (find-assign_self key id known) (λ j i e. assign-grows key id j i known e)
        (report-Reports key id true (assign key id known) r t)

  with_id :
      (key : Text) (known : List (Text × Text)) (r : Reply) (x : Result Text) (s : S)
      → Records key known (
          continue x
            (λ id.
              env.write_state (assign key id known) >> finish env key r id (assign key id known))
            s)
  with_id key known r (raised e) s = tt
  with_id key known r (ok id) s =
      written key id known r (env.write_state (assign key id known) s)
        (λ e. laws.write_state (assign key id known) s e)

  posted :
      (key : Text) (known : List (Text × Text)) (q : Result Reply × S)
      → Records key known (
          continue q.0
            (λ r. if r.status_code == 201 then record_order env key known r else raise seed_error)
            q.1)
  unfolding record_order
  posted key known (raised e, t) = tt
  posted key known (ok r, t) = elim (Bool-cases (r.status_code == 201)) [
    | inl e ↦ rw e (with_id key known r r.id t)
    | inr e ↦ rw e tt
  ]

  create-Records :
      (key : Text) (payload : Payload) (known : List (Text × Text)) (s : S)
      → Records key known (create env key payload known s)
  unfolding create
  create-Records key payload known s = posted key known (env.post orders_path payload s)

  looked_up :
      (key id : Text) (payload : Payload) (known : List (Text × Text)) (q : Result Reply × S)
      → known ≡ or_empty (laws.file q.1)
      → find key known ≡ some id
      → Records key known (continue q.0 (check_existing env key payload id known) q.1)
  looked_up key id payload known (raised e, t) f k = tt
  looked_up key id payload known (ok r, t) f k =
      unfold check_existing in
      elim (Bool-cases (r.status_code == 200)) [
        | inl e ↦ rw e (
            unfold report_existing in
            Records-of_Reports key id known known t _ f k (λ j i h. (i, h))
              (report-Reports key id false known r t))
        | inr e ↦ elim (Bool-cases (r.status_code == 404)) [
          | inl m ↦ rw (e, m) (create-Records key payload known t)
          | inr m ↦ rw (e, m) tt
        ]
      ]

  pub seed_one-Records :
      (known : List (Text × Text)) (key : Text) (payload : Payload) (s : S)
      → known ≡ or_empty (laws.file s)
      → Records key known (seed_one env known (key, payload) s)
  unfolding seed_one
  seed_one-Records known key payload s f = elim (Option-cases (find key known)) [
    | inl e ↦ rw e (unfold seed_known in create-Records key payload known s)
    | inr (id, e) ↦ rw e (
        unfold seed_known in
        looked_up key id payload known (env.get (order_path env id) s)
          (f ∙ ap or_empty (sym (laws.get_keeps _ s).1)) e)
  ]
