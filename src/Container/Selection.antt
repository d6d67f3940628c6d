-- ===== src/Container/Selection.antt =====
-- What `build_container` builds from validated settings.
use pyfr_m8_verify.Settings.{
  new_payment, optional, new_settings, PaymentSettings, Settings, DatabaseSettings, new_database,
  new_otel, CacheSettings, StorageSettings,
}
use pyfr_m8_verify.Base.{Text, List, Option, ◌≡◌, some, arith, none, refl, ap}
use pyfr_m8_verify.Container.{
  select_payments, breaker_guard, select_orders, build_container, PaymentsAdapter, OrdersAdapter,
  Container, authorization, select_cache, select_receipts, wire, postgres, cached, ReceiptsAdapter,
  s3_receipts,
}
use pyfr_m8_verify.Errors.{Result, ok, Exception, raised}
use pyfr_m8_verify.Settings.Numbers.{ℤ}
use pyfr_m8_verify.Errors.Exec.{bind_result-eq_ok, Ends, Ends-bind_result, bind_result}
use pyfr_m8_verify.Infrastructure.Clients.{
  build_engine, AsyncClient, AsyncEngine, client_of, Constructors, engine_of, build_http_client,
  constructed, ConnectionPool, build_redis_client, build_s3_session, pool_of, build_client_config,
  session_of, config_of,
}
use pyfr_m8_verify.Infrastructure.Clients.Dsn.{IsUrl, async_dsn-driven, driven}

payment-guard :
    (p t : PaymentSettings)
    → new_payment p ≡ ok t
    → breaker_guard p.breaker_failure_threshold p.breaker_reset_after_seconds ≡ ok tt
unfolding new_payment breaker_guard
payment-guard p t h = ground arith

optional-some :
    {A : Type 0} (new : A → Result A) (o p : Option A) (a : A)
    → optional new o ≡ ok p
    → o ≡ some a
    → (b : A) × (new a ≡ ok b)
unfolding optional
optional-some new none p a h e = cc
optional-some new (some x) p a h e =
    let (b, k, _) = bind_result-eq_ok (new x) (λ b. ok (some b)) h in (b, cc (k, e))

-- What `new_settings` has checked of the parts that the container is built from.
pub record Checked (query_names : Text → List Text) (s : Settings) : Type 0 where
  pub payment :
      (p : PaymentSettings) → s.payment ≡ some p → (q : PaymentSettings) × (new_payment p ≡ ok q)
  pub database :
      (d : DatabaseSettings)
      → s.database ≡ some d
      → (e : DatabaseSettings) × (new_database query_names d ≡ ok e)

pub new_settings-Checked :
    (query_names : Text → List Text) (s t : Settings)
    → new_settings query_names s ≡ ok t
    → Checked query_names s
unfolding new_settings
new_settings-Checked query_names s t h =
    let (otel, _, h1) = bind_result-eq_ok (new_otel s.otel) _ h in
    let (database, d, h2) =
      bind_result-eq_ok (optional (new_database query_names) s.database) _ h1 in
    let (payment, p, _) = bind_result-eq_ok (optional new_payment s.payment) _ h2 in
    record {
      payment = λ x e. optional-some new_payment s.payment payment x p e;
      database = λ x e. optional-some (new_database query_names) s.database database x d e;
    }

-- The arguments that the HTTP client is built with.
abbrev pub payment_client : PaymentSettings → AsyncClient
payment_client p = client_of p.http p.base_url (authorization p.api_key)

module _ (constructors : Constructors) (query_names : Text → List Text) (int_text : ℤ → Text)
    (s : Settings) where
  -- A constructor of another library raised `e`, called with the arguments that the settings give it.
  pub data IsRefusal (e : Exception) : Type 0 where
    by_client :
        (p : PaymentSettings)
        → s.payment ≡ some p
        → constructors.async_client (payment_client p) ≡ raised e
        → IsRefusal e
    by_engine :
        (d : DatabaseSettings) (u : IsUrl d.dsn)
        → s.database ≡ some d
        → constructors.create_async_engine (engine_of int_text (driven u) d) ≡ raised e
        → IsRefusal e
    by_pool :
        (c : CacheSettings)
        → s.cache ≡ some c
        → constructors.connection_pool (pool_of c) ≡ raised e
        → IsRefusal e
    by_session :
        (o : StorageSettings)
        → s.storage ≡ some o
        → constructors.session (session_of o) ≡ raised e
        → IsRefusal e
    by_config :
        (o : StorageSettings)
        → s.storage ≡ some o
        → constructors.config (config_of o) ≡ raised e
        → IsRefusal e

  abbrev pub HasClient : Option PaymentSettings → Option AsyncClient → Type 0
  HasClient none client = client ≡ none
  HasClient (some p) client = client ≡ some (payment_client p)

  abbrev pub HasEngine : Option DatabaseSettings → Option AsyncEngine → Type 0
  HasEngine none engine = engine ≡ none
  HasEngine (some d) engine = (u : IsUrl d.dsn) × (engine ≡ some (engine_of int_text (driven u) d))

  abbrev pub HasPool : Option CacheSettings → Option ConnectionPool → Type 0
  HasPool none pool = pool ≡ none
  HasPool (some c) pool = pool ≡ some (pool_of c)

  -- The container holds a client for each part that is configured, and none for the others.
  pub record IsBuilt (c : Container) : Type 0 where
    pub settings : c.settings ≡ s
    pub client : HasClient s.payment c.http_client
    pub engine : HasEngine s.database c.engine
    pub pool : HasPool s.cache c.redis

  constructed-Ends :
      {A : Type 0} (construct : A → Result (Unit {0})) (a : A) (q : Result (Unit {0}))
      → construct a ≡ q
      → Ends (λ b. b ≡ a) (λ e. construct a ≡ raised e) (bind_result q (λ x. ok a))
  constructed-Ends construct a (ok x) h = refl
  constructed-Ends construct a (raised e) h = h

  payments-Ends :
      (o : Option PaymentSettings)
      → s.payment ≡ o
      → ((p : PaymentSettings) → o ≡ some p → (q : PaymentSettings) × (new_payment p ≡ ok q))
      → Ends (λ r. HasClient o r.1) IsRefusal (select_payments constructors o)
  unfolding select_payments build_http_client constructed
  payments-Ends none h v = refl
  payments-Ends (some p) h v =
      let (q, k) = v p refl in
      Ends-bind_result (λ client. client ≡ payment_client p)
        (λ (r : PaymentsAdapter × Option AsyncClient). HasClient (some p) r.1)
        (λ e. constructors.async_client (payment_client p) ≡ raised e) IsRefusal
        (bind_result (constructors.async_client (payment_client p)) (λ x. ok (payment_client p))) _
        (constructed-Ends constructors.async_client (payment_client p) _ refl)
        (λ e x. by_client p h x) (λ a e. rw (payment-guard p q k, bind_result) (ap some e))

  orders-Ends :
      (o : Option DatabaseSettings)
      → s.database ≡ o
      → ((d : DatabaseSettings)
          → o ≡ some d
          → (e : DatabaseSettings) × (new_database query_names d ≡ ok e))
      → ((d : DatabaseSettings) → o ≡ some d → IsUrl d.dsn)
      → Ends (λ r. HasEngine o r.1) IsRefusal (select_orders constructors query_names int_text o)
  unfolding select_orders build_engine constructed
  orders-Ends none h v u = refl
  orders-Ends (some d) h v u =
      let (e, k) = v d refl in
      let url = u d refl in
      rw (async_dsn-driven query_names d e url k, bind_result)
        (Ends-bind_result (λ engine. engine ≡ engine_of int_text (driven url) d)
          (λ (r : OrdersAdapter × Option AsyncEngine). HasEngine (some d) r.1)
          (λ e. constructors.create_async_engine (engine_of int_text (driven url) d) ≡ raised e)
          IsRefusal
          (bind_result (constructors.create_async_engine (engine_of int_text (driven url) d))
            (λ x. ok (engine_of int_text (driven url) d)))
          (λ engine. ok (postgres engine, some engine))
          (constructed-Ends constructors.create_async_engine (engine_of int_text (driven url) d) _
            refl)
          (λ x y. by_engine d url h y) (λ a y. (url, ap some y)))

  cache-Ends :
      (o : Option CacheSettings) (orders : OrdersAdapter)
      → s.cache ≡ o
      → Ends (λ r. HasPool o r.1) IsRefusal (select_cache constructors o orders)
  unfolding select_cache build_redis_client constructed
  cache-Ends none orders h = refl
  cache-Ends (some c) orders h =
      Ends-bind_result (λ pool. pool ≡ pool_of c)
        (λ (r : OrdersAdapter × Option ConnectionPool). HasPool (some c) r.1)
        (λ e. constructors.connection_pool (pool_of c) ≡ raised e) IsRefusal
        (bind_result (constructors.connection_pool (pool_of c)) (λ x. ok (pool_of c)))
        (λ pool. ok (cached orders pool c.ttl_seconds, some pool))
        (constructed-Ends constructors.connection_pool (pool_of c) _ refl) (λ e x. by_pool c h x)
        (λ a e. ap some e)

  receipts-Ends :
      (o : Option StorageSettings)
      → s.storage ≡ o
      → Ends (λ r. Unit {0}) IsRefusal (select_receipts constructors o)
  unfolding select_receipts build_s3_session build_client_config constructed
  receipts-Ends none h = tt
  receipts-Ends (some o) h =
      Ends-bind_result (λ a. a ≡ session_of o) (λ (r : ReceiptsAdapter). Unit {0})
        (λ e. constructors.session (session_of o) ≡ raised e) IsRefusal
        (bind_result (constructors.session (session_of o)) (λ x. ok (session_of o))) _
        (constructed-Ends constructors.session (session_of o) _ refl) (λ e x. by_session o h x)
        (λ a p.
          Ends-bind_result (λ b. b ≡ config_of o) (λ (r : ReceiptsAdapter). Unit {0})
            (λ e. constructors.config (config_of o) ≡ raised e) IsRefusal
            (bind_result (constructors.config (config_of o)) (λ x. ok (config_of o)))
            (λ config. ok (s3_receipts a config o))
            (constructed-Ends constructors.config (config_of o) _ refl) (λ e x. by_config o h x)
            (λ b q. tt))

  -- Of settings that were accepted: either a container is built, with exactly the clients that are
  -- configured, or a constructor of another library raised, called with what the settings give it, and
  -- that exception comes out. Neither the guards of the circuit breaker nor those of `async_dsn` refuse,
  -- once a DSN has the form that pydantic promises.
  pub build_container-IsBuilt :
      (t : Settings)
      → new_settings query_names s ≡ ok t
      → ((d : DatabaseSettings) → s.database ≡ some d → IsUrl d.dsn)
      → Ends IsBuilt IsRefusal (build_container constructors query_names int_text s)
  unfolding build_container wire
  build_container-IsBuilt t h u =
      let v = new_settings-Checked query_names s t h in
      Ends-bind_result (λ payments. HasClient s.payment payments.1) IsBuilt IsRefusal IsRefusal _ _
        (payments-Ends s.payment refl v.payment) (λ e x. x)
        λ payments p.
          Ends-bind_result (λ orders. HasEngine s.database orders.1) IsBuilt IsRefusal IsRefusal _ _
            (orders-Ends s.database refl v.database u) (λ e x. x)
            λ orders o.
              Ends-bind_result (λ cache. HasPool s.cache cache.1) IsBuilt IsRefusal IsRefusal _ _
                (cache-Ends s.cache orders.0 refl) (λ e x. x)
                λ cache c.
                  Ends-bind_result (λ receipts. Unit {0}) IsBuilt IsRefusal IsRefusal _ _
                    (receipts-Ends s.storage refl) (λ e x. x)
                    λ receipts r. record { settings = refl; client = p; engine = o; pool = c }
