-- ===== src/Infrastructure/Cache/OverPostgres.antt =====
-- The two adapters together, as the container wires them: the cache around the PostgreSQL repository.
use pyfr_m8_verify.Infrastructure.Cache.FailOpen.{save-inner}
use pyfr_m8_verify.Infrastructure.Cache.{get, save, OrderJson, Redis}
use pyfr_m8_verify.Infrastructure.Database.{Session, postgres_order_repository}
use pyfr_m8_verify.Base.{ℕ, Option, ◌≡◌, some, ==_iff, ◌∙◌, ap, sym, refl}
use pyfr_m8_verify.Infrastructure.Cache.Laws.{OrderJsonLaws, RedisLaws, RepositoryLaws}
use pyfr_m8_verify.Infrastructure.Database.Repository.{SessionLaws}
use pyfr_m8_verify.Domain.Ports.{OrderRepository}
use pyfr_m8_verify.Domain.Order.{Order}
use pyfr_m8_verify.Infrastructure.Database.Adapter.{
  postgres_laws, as_stored-two_places, save_stores,
}
use pyfr_m8_verify.Domain.Order.Valid.{IsValidOrder}
use pyfr_m8_verify.Infrastructure.Cache.Coherence.{
  IsCoherent, IsSafeSave, get-answers, save-IsCoherent,
}
use pyfr_m8_verify.Errors.{ok}
use pyfr_m8_verify.Infrastructure.Database.RoundTrip.{two_places}
use pyfr_m8_verify.Infrastructure.Cache.FailOpen.{save-inner}

module _ {D R : Type 0} (json : OrderJson) (session : Session D) (client : Redis R)
    (ttl_seconds : ℕ) (laws : OrderJsonLaws json) (tables : SessionLaws session)
    (redis : RedisLaws client) where
  abbrev postgres : OrderRepository D
  postgres = postgres_order_repository session

  abbrev repo : RepositoryLaws postgres
  repo = postgres_laws session tables

  saved-stored :
      (o : Order) (d : D)
      → IsValidOrder o
      → (postgres.save o d).0 ≡ ok tt
      → repo.stored (postgres.save o d).1 o.id ≡ some (two_places o)
  unfolding postgres_laws
  saved-stored o d v h =
      (rw ((==_iff o.id o.id).1 refl) at (save_stores session tables o d o.id h))
      ∙ as_stored-two_places session tables o v

  -- Over a session, a Redis client and a pydantic that keep their promises: from a coherent world, after
  -- a save of a valid order that returned, whatever was cached for it before, a read of that order
  -- through the cache, if it answers, answers the saved order with its amounts at two places. (Either
  -- the order is new to the database, or Redis confirmed the invalidation.)
  pub get-save :
      (o : Order) (d : D) (r : R) (x : Option Order)
      → IsValidOrder o
      → IsCoherent json postgres client ttl_seconds laws repo redis (d, r)
      → IsSafeSave json postgres client ttl_seconds laws repo redis o (d, r)
      → (save json postgres client ttl_seconds o (d, r)).0 ≡ ok tt
      → (get json postgres client ttl_seconds o.id
          (save json postgres client ttl_seconds o (d, r)).1).0
        ≡ ok x
      → x ≡ some (two_places o)
  get-save o d r x v c safe h k =
      let w = (save json postgres client ttl_seconds o (d, r)).1 in
      let (same, world) = save-inner json postgres client ttl_seconds laws.refuses o d r in
      get-answers json postgres client ttl_seconds laws repo redis o.id w.0 w.1 x
        (save-IsCoherent json postgres client ttl_seconds laws repo redis o d r c safe) k
      ∙ (ap (λ u. repo.stored u o.id) world ∙ saved-stored o d v (sym same ∙ h))
