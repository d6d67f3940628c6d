-- ===== src/Container.antt =====
-- container.py: which adapters a configuration selects, and how they are closed. An adapter is the
-- arguments that it is constructed with, and what the constructors of other libraries raise is an
-- argument. `query_names` is `parse_qs(urlsplit(url).query)`, its keys
-- only, and `int_text` is `str` of an int.
pub mod Readiness
pub mod Selection
pub mod Closing
use pyfr_m8_verify.Infrastructure.Clients.{
  AsyncEngine, AsyncClient, S3Session, ConnectionPool, S3Config, build_redis_client,
  build_s3_session, build_client_config, build_http_client, build_engine, Constructors,
}
use pyfr_m8_verify.Settings.{
  Settings, PaymentSettings, CacheSettings, StorageSettings, DatabaseSettings,
}
use pyfr_m8_verify.Settings.Numbers.{ℤ, Float, at_least, positive}
use pyfr_m8_verify.Base.{
  Option, Text, List, some, Bool, [], none, if◌then◌else◌, codes, not, ◌++◌, ◌∷◌, false,
}
use pyfr_m8_verify.Container.Readiness.{
  ReadinessRegistry, register, register_informational, new_registry,
}
use pyfr_m8_verify.Errors.Exec.{Exec, pure, try_finally, bind_result}
use pyfr_m8_verify.Errors.{Result, ok, raised, value_error}

pub data OrdersAdapter : Type 0 where
  in_memory_orders : OrdersAdapter
  postgres : AsyncEngine → OrdersAdapter
  cached : (inner : OrdersAdapter) → (redis : ConnectionPool) → (ttl_seconds : ℤ) → OrdersAdapter

pub record Gateway : Type 0 where
  pub client : AsyncClient
  pub failure_threshold : ℤ
  pub reset_after_seconds : Float
  pub attempts : ℤ
  pub wait_initial_seconds : Float
  pub wait_max_seconds : Float

pub data PaymentsAdapter : Type 0 where
  in_memory_payments : PaymentsAdapter
  http_payments : Gateway → PaymentsAdapter

pub data ReceiptsAdapter : Type 0 where
  in_memory_receipts : ReceiptsAdapter
  s3_receipts : S3Session → S3Config → StorageSettings → ReceiptsAdapter

-- The three checks that `build_container` registers.
pub data Check : Type 0 where
  database_is_reachable : AsyncEngine → Check
  cache_is_reachable : ConnectionPool → Check
  storage_is_reachable : (bucket : Text) → Check

pub record Container : Type 0 where
  pub settings : Settings
  pub orders : OrdersAdapter
  pub payments : PaymentsAdapter
  pub engine : Option AsyncEngine
  pub http_client : Option AsyncClient
  pub redis : Option ConnectionPool
  pub receipts : ReceiptsAdapter
  pub readiness : ReadinessRegistry Check
  pub started : Bool

-- The guards of CircuitBreaker.__init__.
unfoldable pub breaker_guard : ℤ → Float → Result (Unit {0})
breaker_guard failure_threshold reset_after_seconds =
    if not (at_least 1 failure_threshold)
    then raised value_error
    else if not (positive reset_after_seconds)
    then raised value_error
    else ok tt

unfoldable pub authorization : Option Text → List (Text × Text)
authorization none = []
authorization (some api_key) = (codes "Authorization", codes "Bearer " ++ api_key) ∷ []

-- The gateway that is built around a client.
abbrev pub gateway_of : PaymentSettings → AsyncClient → PaymentsAdapter
gateway_of payment client = http_payments (record {
  client = client;
  failure_threshold = payment.breaker_failure_threshold;
  reset_after_seconds = payment.breaker_reset_after_seconds;
  attempts = payment.retry_attempts;
  wait_initial_seconds = payment.retry_initial_wait_seconds;
  wait_max_seconds = payment.retry_max_wait_seconds;
})

module _ (constructors : Constructors) where
  unfoldable pub select_payments :
      Option PaymentSettings → Result (PaymentsAdapter × Option AsyncClient)
  unfolding breaker_guard
  select_payments none = ok (in_memory_payments, none)
  select_payments (some payment) =
      bind_result
        (build_http_client constructors payment.http payment.base_url
          (authorization payment.api_key))
        λ client.
          bind_result
            (breaker_guard payment.breaker_failure_threshold payment.breaker_reset_after_seconds)
            λ x. ok (gateway_of payment client, some client)

  unfoldable pub select_cache :
      Option CacheSettings → OrdersAdapter → Result (OrdersAdapter × Option ConnectionPool)
  select_cache none orders = ok (orders, none)
  select_cache (some cache) orders =
      bind_result (build_redis_client constructors cache)
        λ redis. ok (cached orders redis cache.ttl_seconds, some redis)

  unfoldable pub select_receipts : Option StorageSettings → Result ReceiptsAdapter
  select_receipts none = ok in_memory_receipts
  select_receipts (some storage) = bind_result (build_s3_session constructors storage) λ session.
      bind_result (build_client_config constructors storage)
        λ config. ok (s3_receipts session config storage)

abbrev Registry : Type 0
Registry = ReadinessRegistry Check

unfoldable pub with_database : Option AsyncEngine → Registry → Registry
with_database none registry = registry
with_database (some engine) registry =
    register (codes "database") (database_is_reachable engine) registry

unfoldable pub with_cache : Option ConnectionPool → Registry → Registry
with_cache none registry = registry
with_cache (some redis) registry =
    register_informational (codes "cache") (cache_is_reachable redis) registry

unfoldable pub with_storage : Option StorageSettings → Registry → Registry
with_storage none registry = registry
with_storage (some storage) registry =
    register_informational (codes "storage") (storage_is_reachable storage.bucket) registry

-- The container around the adapters, with its checks.
unfoldable pub wire :
    Settings
    → PaymentsAdapter × Option AsyncClient
    → Option AsyncEngine
    → OrdersAdapter × Option ConnectionPool
    → ReceiptsAdapter
    → Container
unfolding with_database with_cache with_storage
wire settings payments engine orders receipts = record {
  settings = settings;
  orders = orders.0;
  payments = payments.0;
  engine = engine;
  http_client = payments.1;
  redis = orders.1;
  receipts = receipts;
  readiness =
      with_storage settings.storage (with_cache orders.1 (with_database engine new_registry));
  started = false;
}

module _ (constructors : Constructors) (query_names : Text → List Text) (int_text : ℤ → Text) where
  unfoldable pub select_orders :
      Option DatabaseSettings → Result (OrdersAdapter × Option AsyncEngine)
  select_orders none = ok (in_memory_orders, none)
  select_orders (some database) =
      bind_result (build_engine constructors query_names int_text database)
        λ engine. ok (postgres engine, some engine)

  unfoldable pub build_container : Settings → Result Container
  unfolding select_payments select_orders select_cache select_receipts wire
  build_container settings = bind_result (select_payments constructors settings.payment) λ payments.
      bind_result (select_orders settings.database) λ orders.
        bind_result (select_cache constructors settings.cache orders.0) λ cache.
          bind_result (select_receipts constructors settings.storage)
            λ receipts. ok (wire settings payments orders.1 cache receipts)

-- What the libraries' close calls do to a world.
pub record Closers (S : Type 0) : Type 0 where
  pub dispose : AsyncEngine → Exec S (Unit {0})
  pub aclose_http : AsyncClient → Exec S (Unit {0})
  pub aclose_redis : ConnectionPool → Exec S (Unit {0})

abbrev pub if_open : {S A : Type 0} → (A → Exec S (Unit {0})) → Option A → Exec S (Unit {0})
if_open close none = pure tt
if_open close (some a) = close a

unfoldable pub close_container : {S : Type 0} → Closers S → Container → Exec S (Unit {0})
close_container closers container = try_finally (if_open closers.dispose container.engine) (
    try_finally (if_open closers.aclose_http container.http_client)
      (if_open closers.aclose_redis container.redis))
