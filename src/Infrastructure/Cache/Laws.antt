-- ===== src/Infrastructure/Cache/Laws.antt =====
-- What the cached repository relies on: the promises of a repository, of Redis and of pydantic.
use pyfr_m8_verify.Domain.Ports.{OrderRepository, Bytes}
use pyfr_m8_verify.Infrastructure.Cache.{Redis, OrderJson}
use pyfr_m8_verify.Base.{ℕ, Text, Option, ◌≡◌, if◌then◌else◌, some, ◌==◌, ◌⊎◌, none}
use pyfr_m8_verify.Domain.Order.{Order}
use pyfr_m8_verify.Errors.{ok, Exception, raised}
use pyfr_m8_verify.Infrastructure.Cache.FailOpen.{RefusesBy}

-- What a repository promises: `stored` is what it holds. A save that raises has changed nothing.
pub record RepositoryLaws {D : Type 0} (inner : OrderRepository D) : Type 0 where
  pub stored : D → ℕ → Option Order
  -- An order as it is read back, if it can be (a database writes amounts with two places).
  pub as_stored : Order → Option Order
  pub get_reads : (n : ℕ) (d : D) (o : Option Order) → (inner.get n d).0 ≡ ok o → o ≡ stored d n
  pub get_keeps : (n : ℕ) (d : D) (m : ℕ) → stored (inner.get n d).1 m ≡ stored d m
  pub save_stores :
      (o : Order) (d : D) (m : ℕ)
      → (inner.save o d).0 ≡ ok tt
      → stored (inner.save o d).1 m ≡ (if m == o.id then as_stored o else stored d m)
  pub save_fails :
      (o : Order) (d : D) (m : ℕ) (e : Exception)
      → (inner.save o d).0 ≡ raised e
      → stored (inner.save o d).1 m ≡ stored d m

-- What Redis promises, where `view` is what it holds: entries come from `set` and may vanish at any
-- time (they expire), also in a call that fails.
pub record RedisLaws {R : Type 0} (client : Redis R) : Type 0 where
  pub view : R → Text → Option Bytes
  pub get_reads :
      (k : Text) (r : R) (b : Bytes) → (client.get k r).0 ≡ ok (some b) → view r k ≡ some b
  pub get_keeps :
      (k : Text) (r : R) (j : Text) (b : Bytes)
      → view (client.get k r).1 j ≡ some b
      → view r j ≡ some b
  pub set_puts :
      (k : Text) (v : Bytes) (t : ℕ) (r : R) (j : Text) (b : Bytes)
      → view (client.set k v t r).1 j ≡ some b
      → ((j ≡ k) × (b ≡ v)) ⊎ (view r j ≡ some b)
  pub delete_keeps :
      (k : Text) (r : R) (j : Text) (b : Bytes)
      → view (client.delete k r).1 j ≡ some b
      → view r j ≡ some b
  pub delete_drops :
      (k : Text) (r : R) → (client.delete k r).0 ≡ ok tt → view (client.delete k r).1 k ≡ none

-- What pydantic and `str` promise.
pub record OrderJsonLaws (json : OrderJson) : Type 0 where
  pub faithful : (o p : Order) → json.validate (json.dump o) ≡ ok p → p ≡ o
  pub refuses : RefusesBy json
  pub distinct : (n m : ℕ) → json.uuid_text n ≡ json.uuid_text m → n ≡ m
