-- ===== src/Infrastructure/Cache/FailOpen.antt =====
-- A failing cache never makes a call fail.
use pyfr_m8_verify.Infrastructure.Cache.{
  OrderJson, accept, swallow, ignore, Redis, parse, read, fill, get, save, key, miss, invalidate,
  on_cache,
}
use pyfr_m8_verify.Domain.Ports.{Bytes, OrderRepository}
use pyfr_m8_verify.Errors.{Result, Exception, raised, ok, validation_error}
use pyfr_m8_verify.Domain.Order.{Order}
use pyfr_m8_verify.Base.{Option, ◌≡◌, ℕ, none, refl, some, Text, ap}
use pyfr_m8_verify.Errors.Exec.{bind_result, continue}

-- What pydantic documents of `model_validate_json`: it refuses with a ValidationError.
abbrev pub RefusesBy : OrderJson → Type 0
RefusesBy json = (raw : Bytes) (e : Exception) → json.validate raw ≡ raised e → e ≡ validation_error

accept-ok :
    (r : Result Order)
    → ((e : Exception) → r ≡ raised e → e ≡ validation_error)
    → (o : Option Order) × (accept r ≡ ok o)
unfolding accept
accept-ok (ok o) h = (some o, refl)
accept-ok (raised e) h = rw (h e refl) (none, refl)

swallow-ok : {A : Type 0} (r : Result (Option A)) → (o : Option A) × (swallow r ≡ ok o)
unfolding swallow
swallow-ok (ok o) = (o, refl)
swallow-ok (raised e) = (none, refl)

ignore-ok : (r : Result (Unit {0})) → ignore r ≡ ok tt
unfolding ignore
ignore-ok (ok x) = refl
ignore-ok (raised e) = refl

module _ {D R : Type 0} (json : OrderJson) (inner : OrderRepository D) (client : Redis R)
    (ttl_seconds : ℕ) (refuses : RefusesBy json) where
  parse-ok :
      (raw : Option Bytes) → (o : Option Order) × (parse json inner client ttl_seconds raw ≡ ok o)
  unfolding parse
  parse-ok none = (none, refl)
  parse-ok (some raw) = accept-ok (json.validate raw) (refuses raw)

  -- A read of the cache always answers, whatever Redis does and whatever it holds.
  pub read-ok :
      (k : Text) (r : R) → (o : Option Order) × ((read json inner client ttl_seconds k r).0 ≡ ok o)
  unfolding read
  read-ok k r =
      let (raw, e) = swallow-ok (client.get k r).0 in
      let (o, p) = parse-ok raw in (o, rw (e, bind_result) p)

  -- What is left of `get` once the cache has been read.
  pub get-read :
      (n : ℕ) (d : D) (r : R) (o : Option Order)
      → (read json inner client ttl_seconds (key json inner client ttl_seconds n) r).0 ≡ ok o
      → get json inner client ttl_seconds n (d, r)
        ≡ miss json inner client ttl_seconds n o
            (d, (client.get (key json inner client ttl_seconds n) r).1)
  unfolding get
  get-read n d r o p = rw (p, continue)

  -- An order found in the repository is written to the cache, and answered whether or not that works.
  pub fill-some :
      (n : ℕ) (o : Order) (d : D) (r : R)
      → fill json inner client ttl_seconds n (some o) (d, r) ≡ (
        ok (some o),
        (d, (client.set (key json inner client ttl_seconds n) (json.dump o) ttl_seconds r).1),
      )
  unfolding fill
  fill-some n o d r = rw (
    ignore-ok (client.set (key json inner client ttl_seconds n) (json.dump o) ttl_seconds r).0,
    continue,
  )

  fill-raises :
      (n : ℕ) (q : Result (Option Order) × D) (r : R) (e : Exception)
      → (continue q.0 (fill json inner client ttl_seconds n) (q.1, r)).0 ≡ raised e
      → q.0 ≡ raised e
  fill-raises n (ok none, d) r e h = unfold fill in cc
  fill-raises n (ok (some o), d) r e h =
      cc (h, ap (λ (p : Result (Option Order) × (D × R)). p.0) (fill-some n o d r))
  fill-raises n (raised x, d) r e h = h

  miss-raises :
      (n : ℕ) (o : Option Order) (d : D) (r : R) (e : Exception)
      → (miss json inner client ttl_seconds n o (d, r)).0 ≡ raised e
      → (inner.get n d).0 ≡ raised e
  unfolding miss
  miss-raises n (some o) d r e h = cc
  miss-raises n none d r e h = fill-raises n (inner.get n d) r e h

  -- Where a payload is refused by a ValidationError only: if `get` of the cached repository
  -- raises, the wrapped repository raised the same exception from the same world.
  pub get-raises :
      (n : ℕ) (d : D) (r : R) (e : Exception)
      → (get json inner client ttl_seconds n (d, r)).0 ≡ raised e
      → (inner.get n d).0 ≡ raised e
  get-raises n d r e h =
      let (o, p) = read-ok (key json inner client ttl_seconds n) r in
      miss-raises n o d _ e (rw (get-read n d r o p) at h)

  saved :
      (q : Result (Unit {0}) × D) (k : Text) (r : R)
      → ((continue q.0 (λ _. on_cache (invalidate json inner client ttl_seconds k)) (q.1, r)).0
          ≡ q.0)
        × ((continue q.0 (λ _. on_cache (invalidate json inner client ttl_seconds k)) (q.1, r)).1.0
            ≡ q.1)
  unfolding invalidate
  saved (ok x, d) k r = (ignore-ok (client.delete k r).0, refl)
  saved (raised e, d) k r = (refl, refl)

  -- `save` of the cached repository ends as the wrapped repository's `save` ends, and leaves the
  -- wrapped repository's world as that leaves it, whatever Redis does.
  pub save-inner :
      (o : Order) (d : D) (r : R)
      → ((save json inner client ttl_seconds o (d, r)).0 ≡ (inner.save o d).0)
        × ((save json inner client ttl_seconds o (d, r)).1.0 ≡ (inner.save o d).1)
  unfolding save
  save-inner o d r = saved (inner.save o d) _ r
