-- ===== src/Infrastructure/Cache.antt =====
-- infrastructure/cache/order_repository.py: a cache in front of another repository. The Redis client,
-- pydantic's JSON and `str` of a UUID are arguments. The world is the pair of the repository's and
-- the cache's.
pub mod FailOpen
pub mod Laws
pub mod Coherence
pub mod OverPostgres
use pyfr_m8_verify.Base.{Text, codes, Option, ℕ, some, ◌++◌, none}
use pyfr_m8_verify.Domain.Order.{Order}
use pyfr_m8_verify.Errors.Exec.{Exec, bind_result, pure, ◌>>=◌, ◌>>◌}
use pyfr_m8_verify.Errors.{Result, ok, raised, validation_error}
use pyfr_m8_verify.Domain.Ports.{OrderRepository, Bytes}

abbrev pub cache_key_prefix : Text
cache_key_prefix = codes "order:v1:"

-- redis-py's client, as far as it is called. `set` has the time to live as its last argument.
pub record Redis (R : Type 0) : Type 0 where
  pub get : Text → Exec R (Option Bytes)
  pub set : Text → Bytes → ℕ → Exec R (Unit {0})
  pub delete : Text → Exec R (Unit {0})

-- Order.model_dump_json().encode() and Order.model_validate_json
pub record OrderJson : Type 0 where
  pub dump : Order → Bytes
  pub validate : Bytes → Result Order
  pub uuid_text : ℕ → Text

module _ {D R : Type 0} where
  -- A call of the wrapped repository, and one of the cache.
  abbrev pub on_repository : {A : Type 0} → Exec D A → Exec (D × R) A
  on_repository m (d, r) = ((m d).0, ((m d).1, r))

  abbrev pub on_cache : {A : Type 0} → Exec R A → Exec (D × R) A
  on_cache m (d, r) = ((m r).0, (d, (m r).1))

-- except Exception: the value is `none`, or nothing is done.
unfoldable pub swallow : {A : Type 0} → Result (Option A) → Result (Option A)
swallow (ok a) = ok a
swallow (raised e) = ok none

unfoldable pub ignore : Result (Unit {0}) → Result (Unit {0})
ignore (ok x) = ok tt
ignore (raised e) = ok tt

-- except ValidationError around the parse of a payload.
unfoldable pub accept : Result Order → Result (Option Order)
accept (ok o) = ok (some o)
accept (raised validation_error) = ok none
accept (raised e) = raised e

module _ {D R : Type 0} (json : OrderJson) (inner : OrderRepository D) (client : Redis R)
    (ttl_seconds : ℕ) where
  unfoldable pub key : ℕ → Text
  key order_id = cache_key_prefix ++ json.uuid_text order_id

  unfoldable pub parse : Option Bytes → Result (Option Order)
  unfolding accept
  parse none = ok none
  parse (some raw) = accept (json.validate raw)

  unfoldable pub read : Text → Exec R (Option Order)
  unfolding parse swallow
  read k r = (bind_result (swallow (client.get k r).0) parse, (client.get k r).1)

  unfoldable pub write : Text → Order → Exec R (Unit {0})
  unfolding ignore
  write k order r = (
    ignore (client.set k (json.dump order) ttl_seconds r).0,
    (client.set k (json.dump order) ttl_seconds r).1,
  )

  unfoldable pub invalidate : Text → Exec R (Unit {0})
  unfolding ignore
  invalidate k r = (ignore (client.delete k r).0, (client.delete k r).1)

  unfoldable pub fill : ℕ → Option Order → Exec (D × R) (Option Order)
  unfolding write key
  fill order_id none = pure none
  fill order_id (some order) = do on_cache (write (key order_id) order); pure (some order)

  unfoldable pub miss : ℕ → Option Order → Exec (D × R) (Option Order)
  unfolding fill
  miss order_id (some cached) = pure (some cached)
  miss order_id none = do order ← on_repository (inner.get order_id); fill order_id order

  -- CachedOrderRepository.get
  unfoldable pub get : ℕ → Exec (D × R) (Option Order)
  unfolding read miss key
  get order_id = do cached ← on_cache (read (key order_id)); miss order_id cached

  -- CachedOrderRepository.save: the repository first, then the invalidation.
  unfoldable pub save : Order → Exec (D × R) (Unit {0})
  unfolding invalidate key
  save order = do on_repository (inner.save order); on_cache (invalidate (key order.id))

  abbrev pub cached_order_repository : OrderRepository (D × R)
  cached_order_repository = record { get = get; save = save }
