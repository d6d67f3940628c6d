-- ===== src/Infrastructure/Cache/Coherence.antt =====
-- The cache never answers what the wrapped repository would not.
use pyfr_m8_verify.Domain.Ports.{OrderRepository, Bytes}
use pyfr_m8_verify.Infrastructure.Cache.{
  Redis, OrderJson, key, accept, swallow, read, miss, parse, get, cache_key_prefix, fill,
  invalidate, on_cache, save,
}
use pyfr_m8_verify.Base.{
  ℕ, Text, Option, ◌≡◌, some, append-cancel_left, if◌then◌else◌, ◌⊎◌, arith, ◌==◌, none, sym, ◌∙◌,
  ap, refl, inl, inr, Bool-cases, ==_iff,
}
use pyfr_m8_verify.Domain.Order.{Order}
use pyfr_m8_verify.Errors.{Result, ok, raised, Exception}
use pyfr_m8_verify.Errors.Exec.{continue, bind_result}
use pyfr_m8_verify.Infrastructure.Cache.FailOpen.{read-ok, fill-some, get-read}
use pyfr_m8_verify.Infrastructure.Cache.Laws.{OrderJsonLaws, RepositoryLaws, RedisLaws}

module _ {D R : Type 0} (json : OrderJson) (inner : OrderRepository D) (client : Redis R)
    (ttl_seconds : ℕ) (laws : OrderJsonLaws json) (repo : RepositoryLaws inner)
    (redis : RedisLaws client) where
  -- Every readable entry of the cache is what the repository holds.
  pub record IsCoherent (w : D × R) : Type 0 where
    pub entries :
        (n : ℕ) (raw : Bytes) (o : Order)
        → redis.view w.1 (key json inner client ttl_seconds n) ≡ some raw
        → json.validate raw ≡ ok o
        → repo.stored w.0 n ≡ some o

  key-injective :
      (n m : ℕ) → key json inner client ttl_seconds n ≡ key json inner client ttl_seconds m → n ≡ m
  unfolding key
  key-injective n m h = laws.distinct n m (append-cancel_left cache_key_prefix _ _ h)

  accept-some : (r : Result Order) (o : Order) → accept r ≡ ok (some o) → r ≡ ok o
  unfolding accept
  accept-some (ok p) o h = ground arith
  accept-some (raised e) o h = ground arith

  read-some :
      (k : Text) (q : Result (Option Bytes)) (o : Order)
      → bind_result (swallow q) (parse json inner client ttl_seconds) ≡ ok (some o)
      → (raw : Bytes) × (q ≡ ok (some raw)) × (json.validate raw ≡ ok o)
  unfolding swallow parse
  read-some k (ok none) o h = cc
  read-some k (ok (some raw)) o h = (raw, refl, accept-some (json.validate raw) o h)
  read-some k (raised e) o h = cc

  hit :
      (n : ℕ) (d : D) (r : R) (o : Order)
      → IsCoherent (d, r)
      → (read json inner client ttl_seconds (key json inner client ttl_seconds n) r).0 ≡ ok (some o)
      → repo.stored d n ≡ some o
  unfolding read
  hit n d r o c h =
      let k = key json inner client ttl_seconds n in
      let (raw, q, v) = read-some k (client.get k r).0 o h in
      c.entries n raw o (redis.get_reads k r raw q) v

  fill-ok :
      (n : ℕ) (q : Result (Option Order) × D) (r : R) (x : Option Order)
      → (continue q.0 (fill json inner client ttl_seconds n) (q.1, r)).0 ≡ ok x
      → q.0 ≡ ok x
  fill-ok n (ok none, d) r x h = unfold fill in h
  fill-ok n (ok (some o), d) r x h =
      sym (
        ap (λ (p : Result (Option Order) × (D × R)). p.0)
          (fill-some json inner client ttl_seconds laws.refuses n o d r))
      ∙ h
  fill-ok n (raised e, d) r x h = h

  miss-answers :
      (n : ℕ) (o : Option Order) (d : D) (r : R) (x : Option Order)
      → ((p : Order) → o ≡ some p → repo.stored d n ≡ some p)
      → (miss json inner client ttl_seconds n o (d, r)).0 ≡ ok x
      → x ≡ repo.stored d n
  unfolding miss
  miss-answers n (some p) d r x k h = cc (k p refl)
  miss-answers n none d r x k h = repo.get_reads n d x (fill-ok n (inner.get n d) r x h)

  -- Where the repository, Redis and pydantic keep their promises (a payload that was written
  -- reads as the order it was written from, if it reads): from a coherent world, whatever Redis
  -- loses or refuses, what the cached repository answers is what the wrapped repository holds.
  pub get-answers :
      (n : ℕ) (d : D) (r : R) (x : Option Order)
      → IsCoherent (d, r)
      → (get json inner client ttl_seconds n (d, r)).0 ≡ ok x
      → x ≡ repo.stored d n
  get-answers n d r x c h =
      let (o, p) =
        read-ok json inner client ttl_seconds laws.refuses (key json inner client ttl_seconds n)
          r in
      miss-answers n o d _ x (λ q e. hit n d r q c (p ∙ ap ok e))
        (rw (get-read json inner client ttl_seconds laws.refuses n d r o p) at h)

  shrink :
      (d d' : D) (r r' : R)
      → IsCoherent (d, r)
      → ((m : ℕ) → repo.stored d' m ≡ repo.stored d m)
      → ((j : Text) (b : Bytes) → redis.view r' j ≡ some b → redis.view r j ≡ some b)
      → IsCoherent (d', r')
  shrink d d' r r' c keeps fewer = record {
    entries = λ n raw o v a. keeps n ∙ c.entries n raw o (fewer _ raw v) a;
  }

  filled :
      (n : ℕ) (q : Result (Option Order) × D) (r : R)
      → IsCoherent (q.1, r)
      → ((o : Order) → q.0 ≡ ok (some o) → repo.stored q.1 n ≡ some o)
      → IsCoherent (continue q.0 (fill json inner client ttl_seconds n) (q.1, r)).1
  filled n (ok none, d) r c k = unfold fill in c
  filled n (raised e, d) r c k = c
  filled n (ok (some o), d) r c k =
      rw (fill-some json inner client ttl_seconds laws.refuses n o d r) (record {
        entries = λ m raw p v a. elim (redis.set_puts _ _ _ r _ raw v) [
          | inl (e, f) ↦ rw (key-injective m n e, laws.faithful o p (rw f at a)) (k o refl)
          | inr old ↦ c.entries m raw p old a
        ];
      })

  missed :
      (n : ℕ) (o : Option Order) (d : D) (r : R)
      → IsCoherent (d, r)
      → IsCoherent (miss json inner client ttl_seconds n o (d, r)).1
  unfolding miss
  missed n (some p) d r c = c
  missed n none d r c =
      filled n (inner.get n d) r
        (shrink d (inner.get n d).1 r r c (λ m. repo.get_keeps n d m) (λ j b v. v))
        (λ o e. repo.get_keeps n d n ∙ sym (repo.get_reads n d (some o) e))

  -- Where the repository, Redis and pydantic keep their promises, a read through the cache
  -- leaves a coherent world coherent.
  pub get-IsCoherent :
      (n : ℕ) (d : D) (r : R)
      → IsCoherent (d, r)
      → IsCoherent (get json inner client ttl_seconds n (d, r)).1
  get-IsCoherent n d r c =
      let k = key json inner client ttl_seconds n in
      let (o, p) = read-ok json inner client ttl_seconds laws.refuses k r in
      rw (get-read json inner client ttl_seconds laws.refuses n d r o p)
        (missed n o d _ (shrink d d r _ c (λ m. refl) (λ j b v. redis.get_keeps k r j b v)))

  -- Either the order has not been saved before, or Redis confirms that the entry is gone.
  abbrev pub IsSafeSave : Order → D × R → Type 0
  IsSafeSave o (d, r) =
      (repo.stored d o.id ≡ none)
      ⊎ ((client.delete (key json inner client ttl_seconds o.id) r).0 ≡ ok tt)

  absent :
      (o : Order) (d : D) (r : R) (raw : Bytes) (p : Order)
      → IsCoherent (d, r)
      → IsSafeSave o (d, r)
      → redis.view
          (client.delete (key json inner client ttl_seconds o.id) r).1
          (key json inner client ttl_seconds o.id)
        ≡ some raw
      → json.validate raw ≡ ok p
      → ⊥
  absent o d r raw p c (inl e) v a = cc (c.entries o.id raw p (redis.delete_keeps _ r _ raw v) a)
  absent o d r raw p c (inr e) v a = cc (redis.delete_drops _ r e)

  saved-IsCoherent :
      (o : Order) (d : D) (r : R) (q : Result (Unit {0}) × D)
      → IsCoherent (d, r)
      → IsSafeSave o (d, r)
      → ((m : ℕ)
          → q.0 ≡ ok tt
          → repo.stored q.1 m ≡ (if m == o.id then repo.as_stored o else repo.stored d m))
      → ((m : ℕ) (e : Exception) → q.0 ≡ raised e → repo.stored q.1 m ≡ repo.stored d m)
      → IsCoherent
          (continue q.0
            (λ _.
              on_cache
                (invalidate json inner client ttl_seconds (key json inner client ttl_seconds o.id)))
            (q.1, r)).1
  unfolding invalidate
  saved-IsCoherent o d r (raised e, u) c safe stores fails =
      shrink d u r r c (λ m. fails m e refl) (λ j b v. v)
  saved-IsCoherent o d r (ok x, u) c safe stores fails = record {
    entries = λ n raw p v a. elim (Bool-cases (n == o.id)) [
      | inl e ↦ absurd (absent o d r raw p c safe (rw ((==_iff n o.id).0 e) at v) a)
      | inr e ↦ rw (stores n refl) (rw e (c.entries n raw p (redis.delete_keeps _ r _ raw v) a))
    ];
  }

  -- Where the repository, Redis and pydantic keep their promises, a save leaves a coherent world
  -- coherent, whether it succeeds or not, if the order has not been saved before or Redis
  -- confirms the invalidation.
  pub save-IsCoherent :
      (o : Order) (d : D) (r : R)
      → IsCoherent (d, r)
      → IsSafeSave o (d, r)
      → IsCoherent (save json inner client ttl_seconds o (d, r)).1
  unfolding save
  save-IsCoherent o d r c safe =
      saved-IsCoherent o d r (inner.save o d) c safe (λ m e. repo.save_stores o d m e)
        (λ m e h. repo.save_fails o d m e h)
