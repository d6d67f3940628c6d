-- ===== src/Seed/Idempotent.antt =====
-- What a run of the seed leaves behind, and what the next run does.
use pyfr_m8_verify.Seed.{
  SeedEnvironment, check_receipt, ensure_receipt, report_existing, seed_one, Reply, Payload,
  SeededOrder, seed_known, order_path, check_existing, seed_all, and_rest,
}
use pyfr_m8_verify.Base.{
  ℕ, ◌≡◌, List, Option, Text, arith, find, some, false, ◌++◌, codes, refl, ◌∙◌, ◌==◌, true, ◌∷◌,
  All, ==_iff, [],
}
use pyfr_m8_verify.Errors.{Result, ok, raised}
use pyfr_m8_verify.Errors.Exec.{continue, pure, lift, ◌>>=◌, Exec}

-- What the service and the file system promise: `posts` counts the orders that were asked for, and
-- `file` is the state file. A write that returns has written.
pub record SeedLaws {S : Type 0} (env : SeedEnvironment S) : Type 0 where
  pub posts : S → ℕ
  pub file : S → Option (List (Text × Text))
  pub get_keeps :
      (p : Text) (s : S) → (posts (env.get p s).1 ≡ posts s) × (file (env.get p s).1 ≡ file s)
  pub post_keeps : (p : Text) (b : Payload) (s : S) → file (env.post p b s).1 ≡ file s
  pub read_state :
      (s : S) (o : Option (List (Text × Text))) → (env.read_state s).0 ≡ ok o → o ≡ file s
  pub read_keeps :
      (s : S) → (posts (env.read_state s).1 ≡ posts s) × (file (env.read_state s).1 ≡ file s)
  pub write_state :
      (d : List (Text × Text)) (s : S)
      → (env.write_state d s).0 ≡ ok tt
      → file (env.write_state d s).1 ≡ some d

module _ {S : Type 0} (env : SeedEnvironment S) (laws : SeedLaws env) where
  -- The world is as `s` was in both respects.
  abbrev pub Kept : S → S → Type 0
  Kept s t = (laws.posts t ≡ laws.posts s) × (laws.file t ≡ laws.file s)

  check_receipt-same : (r : Reply) (s : S) → (check_receipt env r s).1 ≡ s
  unfolding check_receipt
  check_receipt-same r s = ground arith

  pub ensure_receipt-Kept : (id : Text) (s : S) → Kept s (ensure_receipt env id s).1
  unfolding ensure_receipt
  ensure_receipt-Kept id s =
      asked (env.get (order_path env id ++ codes "/receipt") s) (laws.get_keeps _ s)
    where
      asked : (q : Result Reply × S) → Kept s q.1 → Kept s (continue q.0 (check_receipt env) q.1).1
      asked (ok r, t) k = rw check_receipt-same k
      asked (raised e, t) k = k

  -- What a round that creates nothing does.
  abbrev Quiet : S → List (Text × Text) → Result (SeededOrder × List (Text × Text)) × S → Type 0
  Quiet s known (ok one, t) = Kept s t × (one.1 ≡ known)
  Quiet s known (raised e, t) = Kept s t

  report_existing-Quiet :
      (key id : Text) (known : List (Text × Text)) (r : Reply) (s : S)
      → Quiet s known (report_existing env key id known r s)
  unfolding report_existing
  report_existing-Quiet key id known r s =
      receipt (ensure_receipt env id s) (ensure_receipt-Kept id s)
    where
      read :
          (x : Result Text) (t : S)
          → Kept s t
          → Quiet s known (
              continue x
                (λ total.
                  pure (record { key = key; order_id = id; total = total; created = false }, known))
                t)
      read (ok total) t k = (k, refl)
      read (raised e) t k = k

      receipt :
          (q : Result (Unit {0}) × S)
          → Kept s q.1
          → Quiet s known (
              continue q.0
                (λ x. lift r.total >>= λ total.
                  pure (record { key = key; order_id = id; total = total; created = false }, known))
                q.1)
      receipt (ok x, t) k = read r.total t k
      receipt (raised e, t) k = k

  -- Recorded, and as long as the world is as `b` was, the service answers no look-up of it but with
  -- 200.
  abbrev pub IsKnown : S → List (Text × Text) → Text × Payload → Type 0
  IsKnown b known (key, payload) =
      (id : Text) × (find key known ≡ some id)
      × ((s : S) (r : Reply)
          → Kept b s
          → (env.get (order_path env id) s).0 ≡ ok r
          → r.status_code ≡ 200)

  Quiet-trans :
      (s t : S) (known : List (Text × Text)) (q : Result (SeededOrder × List (Text × Text)) × S)
      → Kept s t
      → Quiet t known q
      → Quiet s known q
  Quiet-trans s t known (ok one, u) k h = ((h.0.0 ∙ k.0, h.0.1 ∙ k.1), h.1)
  Quiet-trans s t known (raised e, u) k h = (h.0 ∙ k.0, h.1 ∙ k.1)

  is_200 : (n : ℕ) → n ≡ 200 → (n == 200) ≡ true
  is_200 n h = (==_iff n 200).1 h

  looked_up :
      (key id : Text) (payload : Payload) (known : List (Text × Text)) (s : S)
      (q : Result Reply × S)
      → Kept s q.1
      → ((r : Reply) → q.0 ≡ ok r → r.status_code ≡ 200)
      → Quiet s known (continue q.0 (check_existing env key payload id known) q.1)
  looked_up key id payload known s (raised e, t) k f = k
  looked_up key id payload known s (ok r, t) k f =
      unfold check_existing in
      rw (is_200 r.status_code (f r refl))
        (Quiet-trans s t known _ k (report_existing-Quiet key id known r t))

  seed_one-Quiet :
      (b : S) (known : List (Text × Text)) (order : Text × Payload) (s : S)
      → Kept b s
      → IsKnown b known order
      → Quiet s known (seed_one env known order s)
  unfolding seed_one
  seed_one-Quiet b known (key, payload) s k (id, recorded, found) = rw recorded (
      unfold seed_known in
      looked_up key id payload known s (env.get (order_path env id) s)
        (laws.get_keeps (order_path env id) s) (λ r e. found s r k e))

  ended-Kept :
      (one : SeededOrder) (s t : S) (q : Result (List SeededOrder × List (Text × Text)) × S)
      → Kept s t
      → Kept t q.1
      → Kept s
          (continue {B = List SeededOrder × List (Text × Text)} q.0
            (λ more. pure (one ∷ more.0, more.1))
            q.1).1
  ended-Kept one s t (ok more, u) k h = (h.0 ∙ k.0, h.1 ∙ k.1)
  ended-Kept one s t (raised e, u) k h = (h.0 ∙ k.0, h.1 ∙ k.1)

  rest-Kept :
      (s : S) (known : List (Text × Text))
      (rest : List (Text × Text) → Exec S (List SeededOrder × List (Text × Text)))
      (q : Result (SeededOrder × List (Text × Text)) × S)
      → Quiet s known q
      → ((t : S) → Kept s t → Kept t (rest known t).1)
      → Kept s (continue q.0 (and_rest env rest) q.1).1
  rest-Kept s known rest (raised e, t) k h = k
  rest-Kept s known rest (ok (one, known'), t) k h =
      unfold and_rest in ended-Kept one s t (rest known' t) k.0 (rw k.1 (h t k.0))

  pub seed_all-Kept :
      (b : S) (seeds : List (Text × Payload)) (known : List (Text × Text)) (s : S)
      → Kept b s
      → All (IsKnown b known) seeds
      → Kept s (seed_all env seeds known s).1
  unfolding seed_all
  seed_all-Kept b [] known s k h = (refl, refl)
  seed_all-Kept b (order ∷ rest) known s k h =
      rest-Kept s known (seed_all env rest) (seed_one env known order s)
        (seed_one-Quiet b known order s k h.0)
        (λ t kept. seed_all-Kept b rest known t (kept.0 ∙ k.0, kept.1 ∙ k.1) h.1)
