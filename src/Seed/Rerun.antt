-- ===== src/Seed/Rerun.antt =====
-- A whole run of the seed, and the run after it.
use pyfr_m8_verify.Seed.{
  SeedEnvironment, SeededOrder, seed_all, seed, Payload, seed_orders, or_empty, seed_one, Reply,
  and_rest, order_path,
}
use pyfr_m8_verify.Seed.Idempotent.{SeedLaws, Kept, IsKnown, seed_all-Kept}
use pyfr_m8_verify.Base.{
  List, Text, find, Option, ◌≡◌, some, ◌∷◌, All, ap, [], ◌∙◌, sym, refl, subst,
}
use pyfr_m8_verify.Errors.{Result, ok, raised}
use pyfr_m8_verify.Errors.Exec.{Exec, continue, pure, ◌>>=◌}
use pyfr_m8_verify.Seed.Recorded.{Records, seed_one-Records}

module _ {S : Type 0} (env : SeedEnvironment S) (laws : SeedLaws env) where
  abbrev IsRecorded : List (Text × Text) → Text × Payload → Type 0
  IsRecorded known (key, payload) = (id : Text) × (find key known ≡ some id)

  -- No key of the first dict is missing in the second.
  abbrev Grows : List (Text × Text) → List (Text × Text) → Type 0
  Grows known known' =
      (j i : Text) → find j known ≡ some i → (i' : Text) × (find j known' ≡ some i')

  abbrev Complete :
      List (Text × Payload)
      → List (Text × Text)
      → Result (List SeededOrder × List (Text × Text)) × S
      → Type 0
  Complete seeds known (ok (rs, known'), t) =
      (known' ≡ or_empty (laws.file t)) × All (IsRecorded known') seeds × Grows known known'
  Complete seeds known (raised e, t) = Unit {0}

  ended :
      (one : SeededOrder) (payload : Payload) (key : Text) (rest : List (Text × Payload))
      (known known' : List (Text × Text)) (q : Result (List SeededOrder × List (Text × Text)) × S)
      → IsRecorded known' (key, payload)
      → Grows known known'
      → Complete rest known' q
      → Complete ((key, payload) ∷ rest) known (
          continue {B = List SeededOrder × List (Text × Text)} q.0
            (λ more. pure (one ∷ more.0, more.1))
            q.1)
  ended one payload key rest known known' (raised e, t) r g h = tt
  ended one payload key rest known known' (ok (rs, more), t) r g h =
      (h.0, (h.2 key r.0 r.1, h.1), λ j i e. h.2 j (g j i e).0 (g j i e).1)

  rest-Complete :
      (key : Text) (payload : Payload) (rest : List (Text × Payload)) (known : List (Text × Text))
      (run_rest : List (Text × Text) → Exec S (List SeededOrder × List (Text × Text)))
      (q : Result (SeededOrder × List (Text × Text)) × S)
      → Records env laws key known q
      → ((known' : List (Text × Text)) (t : S)
          → known' ≡ or_empty (laws.file t)
          → Complete rest known' (run_rest known' t))
      → Complete ((key, payload) ∷ rest) known (continue q.0 (and_rest env run_rest) q.1)
  rest-Complete key payload rest known run_rest (raised e, t) r h = tt
  rest-Complete key payload rest known run_rest (ok (one, known'), t) r h =
      unfold and_rest in
      ended one payload key rest known known' (run_rest known' t) (one.order_id, r.1) r.2
        (h known' t r.0)

  seed_all-Complete :
      (seeds : List (Text × Payload)) (known : List (Text × Text)) (s : S)
      → known ≡ or_empty (laws.file s)
      → Complete seeds known (seed_all env seeds known s)
  unfolding seed_all
  seed_all-Complete [] known s f = (f, tt, λ j i e. (i, e))
  seed_all-Complete ((key, payload) ∷ rest) known s f =
      rest-Complete key payload rest known (seed_all env rest) (seed_one env known (key, payload) s)
        (seed_one-Records env laws known key payload s f)
        (λ known' t f'. seed_all-Complete rest known' t f')

  AllRecorded : Result (List SeededOrder) × S → Type 0
  AllRecorded (ok rs, t) = All (IsRecorded (or_empty (laws.file t))) seed_orders
  AllRecorded (raised e, t) = Unit {0}

  seeded-AllRecorded :
      (known : List (Text × Text)) (q : Result (List SeededOrder × List (Text × Text)) × S)
      → Complete seed_orders known q
      → AllRecorded (continue q.0 (λ done. pure done.0) q.1)
  seeded-AllRecorded known (raised e, t) h = unfold AllRecorded in tt
  seeded-AllRecorded known (ok (rs, known'), t) h =
      unfold AllRecorded in subst (λ d. All (IsRecorded d) seed_orders) h.0 h.1

  read-AllRecorded :
      (s : S) (q : Result (Option (List (Text × Text))) × S)
      → ((o : Option (List (Text × Text))) → q.0 ≡ ok o → o ≡ laws.file s)
      → laws.file q.1 ≡ laws.file s
      → AllRecorded (
          continue q.0
            (λ state. seed_all env seed_orders (or_empty state) >>= λ done. pure done.0)
            q.1)
  read-AllRecorded s (raised e, t) h k = unfold AllRecorded in tt
  read-AllRecorded s (ok state, t) h k =
      seeded-AllRecorded (or_empty state) (seed_all env seed_orders (or_empty state) t)
        (seed_all-Complete seed_orders (or_empty state) t (ap or_empty (h state refl ∙ sym k)))

  seed-AllRecorded : (s : S) → AllRecorded (seed env s)
  unfolding seed
  seed-AllRecorded s =
      read-AllRecorded s (env.read_state s) (laws.read_state s) (laws.read_keeps s).1

  -- Where the seed succeeds, each of its five keys has an identifier in the state file at the end.
  pub seed-recorded :
      (s t : S) (rs : List SeededOrder)
      → seed env s ≡ (ok rs, t)
      → All (λ order. (id : Text) × (find order.0 (or_empty (laws.file t)) ≡ some id)) seed_orders
  seed-recorded s t rs h = unfold AllRecorded in subst AllRecorded h (seed-AllRecorded s)

  -- The service has every order of the file: as long as nothing is asked for and the file is as it
  -- was, no look-up of its identifier is answered but with 200.
  abbrev pub IsServed : S → Type 0
  IsServed b =
      (key id : Text)
      → find key (or_empty (laws.file b)) ≡ some id
      → (s : S) (r : Reply) → Kept env laws b s
      → (env.get (order_path env id) s).0 ≡ ok r
      → r.status_code ≡ 200

  IsKnown-of_served :
      (b : S) (known : List (Text × Text)) (seeds : List (Text × Payload))
      → known ≡ or_empty (laws.file b)
      → IsServed b
      → All (λ order. (id : Text) × (find order.0 (or_empty (laws.file b)) ≡ some id)) seeds
      → All (IsKnown env laws b known) seeds
  IsKnown-of_served b known [] f served h = tt
  IsKnown-of_served b known (order ∷ rest) f served ((id, e), h) = (
    (id, rw f e, λ s r k a. served order.0 id e s r k a),
    IsKnown-of_served b known rest f served h,
  )

  done-Kept :
      (b : S) (q : Result (List SeededOrder × List (Text × Text)) × S)
      → Kept env laws b q.1
      → Kept env laws b (continue q.0 (λ done. pure done.0) q.1).1
  done-Kept b (ok done, t) k = k
  done-Kept b (raised e, t) k = k

  read-Kept :
      (b : S) (q : Result (Option (List (Text × Text))) × S)
      → ((o : Option (List (Text × Text))) → q.0 ≡ ok o → o ≡ laws.file b)
      → Kept env laws b q.1
      → IsServed b
      → All (λ order. (id : Text) × (find order.0 (or_empty (laws.file b)) ≡ some id)) seed_orders
      → Kept env laws b
          (continue q.0
            (λ state. seed_all env seed_orders (or_empty state) >>= λ done. pure done.0)
            q.1).1
  read-Kept b (raised e, t) f k served h = k
  read-Kept b (ok state, t) f k served h =
      done-Kept b (seed_all env seed_orders (or_empty state) t) (seeded.0 ∙ k.0, seeded.1 ∙ k.1)
    where
      seeded : Kept env laws t (seed_all env seed_orders (or_empty state) t).1
      seeded =
          seed_all-Kept env laws b seed_orders (or_empty state) t k
            (IsKnown-of_served b (or_empty state) seed_orders (ap or_empty (f state refl)) served h)

  -- Where the seed has succeeded and the service has every order of the state file, a second run,
  -- whatever its answers, asks for no order and leaves the file as it is.
  pub seed-second_run :
      (s t : S) (rs : List SeededOrder)
      → seed env s ≡ (ok rs, t)
      → IsServed t
      → (laws.posts (seed env t).1 ≡ laws.posts t) × (laws.file (seed env t).1 ≡ laws.file t)
  unfolding seed
  seed-second_run s t rs h served =
      read-Kept t (env.read_state t) (laws.read_state t) (laws.read_keeps t) served
        (seed-recorded s t rs h)
