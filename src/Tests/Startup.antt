-- ===== src/Tests/Startup.antt =====
-- settings.py, container.py, api/health.py and main.py, from one configuration.
use pyfr_m8_verify.Settings.{
  OtelSettings, LogSettings, DatabaseSettings, HttpClientSettings, PaymentSettings, CacheSettings,
  StorageSettings, Settings, new_settings, new_database, info, production, new_otel, first_named,
  new_payment, is_bucket_character, new_http_client, is_alphanumeric, new_cache, new_storage,
}
use pyfr_m8_verify.Base.{
  Text, true, codes, List, ◌≡◌, false, [], some, none, refl, has, subst, String, not, ◌↔◌, ◌++◌,
  ◌∷◌, partition, assign,
}
use pyfr_m8_verify.Settings.Numbers.{ℤ, finite, pos, at_most_one, one}
use pyfr_m8_verify.Infrastructure.Clients.Dsn.{IsUrl}
use pyfr_m8_verify.Infrastructure.Clients.{
  async_dsn, AsyncEngine, ConnectionPool, build_engine, build_redis_client, Constructors,
  build_http_client, constructed,
}
use pyfr_m8_verify.Errors.{ok, raised, other}
use pyfr_m8_verify.Container.{
  Container, build_container, Check, Closers, cached, postgres, database_is_reachable,
  in_memory_payments, cache_is_reachable, in_memory_receipts, storage_is_reachable, close_container,
}
use pyfr_m8_verify.Api.Health.{readiness}
use pyfr_m8_verify.Container.Readiness.{CheckOutcome, register_informational, register}
use pyfr_m8_verify.Application.{
  OtelRuntime, lifespan, stop_metrics, instrument, is_raised, shutdown_otel,
}
use pyfr_m8_verify.Container.Selection.{IsBuilt, IsRefusal, build_container-IsBuilt}
use pyfr_m8_verify.Errors.Exec.{Exec, Ends}
use pyfr_m8_verify.Api.Health.Gating.{DatabaseAnswers, readiness_iff}
use pyfr_m8_verify.Container.Closing.{close_container-closed}
use pyfr_m8_verify.Application.Shutdown.{lifespan-close_raised, served, lifespan-released}

abbrev pub otel_settings : OtelSettings
otel_settings = record {
  enabled = true;
  logs_enabled = false;
  endpoint = some (codes "http://otel:4317");
  sample_ratio = finite 1;
  metric_export_interval_ms = pos 60000;
}

abbrev log_settings : LogSettings
log_settings = record { level = info; levels = []; redact_fields = [] }

abbrev database_settings : DatabaseSettings
database_settings = record {
  dsn = codes "postgresql://app:pw@db/orders";
  pool_size = pos 5;
  statement_timeout_ms = pos 5000;
}

abbrev http_settings : HttpClientSettings
http_settings = record {
  connect_timeout_seconds = finite 2;
  read_timeout_seconds = finite 2;
  write_timeout_seconds = finite 2;
  pool_timeout_seconds = finite 2;
  max_connections = pos 10;
  max_keepalive_connections = pos 5;
}

abbrev payment_settings : PaymentSettings
payment_settings = record {
  base_url = codes "https://pay";
  api_key = some (codes "key");
  http = http_settings;
  retry_attempts = pos 3;
  retry_initial_wait_seconds = finite 1;
  retry_max_wait_seconds = finite 4;
  breaker_failure_threshold = pos 5;
  breaker_reset_after_seconds = finite 30;
}

abbrev cache_settings : CacheSettings
cache_settings = record {
  dsn = codes "redis://cache";
  ttl_seconds = pos 60;
  pool_size = pos 5;
  connect_timeout_seconds = finite 1;
  operation_timeout_seconds = finite 1;
}

abbrev storage_settings : StorageSettings
storage_settings = record {
  bucket = codes "receipts.eu-1";
  endpoint_url = none;
  region = codes "eu-1";
  access_key_id = codes "id";
  secret_access_key = codes "secret";
  connect_timeout_seconds = finite 1;
  read_timeout_seconds = finite 1;
}

abbrev pub configuration : Settings
configuration = record {
  environment = production;
  service_name = codes "orders";
  http_port = pos 8000;
  log = log_settings;
  otel = otel_settings;
  database = some database_settings;
  payment = some payment_settings;
  cache = some cache_settings;
  storage = some storage_settings;
}

abbrev pub no_query : Text → List Text
no_query dsn = []

abbrev shown : ℤ → Text
shown n = codes "5000"

pub configuration-accepted : new_settings no_query configuration ≡ ok configuration
unfolding new_settings new_otel at_most_one one new_database first_named new_payment new_http_client
    new_cache new_storage is_alphanumeric is_bucket_character
configuration-accepted = refl

database-accepted : new_database no_query database_settings ≡ ok database_settings
unfolding new_database first_named
database-accepted = refl

colonless : has b':' (codes "postgresql") ≡ false
unfolding has
colonless = refl

abbrev database_url : IsUrl database_settings.dsn
database_url = record {
  scheme = codes "postgresql";
  rest = codes "app:pw@db/orders";
  splits = refl;
  no_colon = colonless;
}

is_url : (d : DatabaseSettings) → some database_settings ≡ some d → IsUrl d.dsn
is_url d e = subst (λ o. IsUrl o.dsn) (some-injective e) database_url
  where
    some-injective : {a b : DatabaseSettings} → some a ≡ some b → a ≡ b
    some-injective h = cc

-- SQLAlchemy knows the driver, httpx encodes the header.
abbrev libraries : Constructors
libraries = record {
  create_async_engine = λ engine. ok tt;
  async_client = λ client. ok tt;
  connection_pool = λ pool. ok tt;
  session = λ session. ok tt;
  config = λ config. ok tt;
}

build_container-IsBuilt_example :
    Ends
      (IsBuilt libraries no_query shown configuration)
      (IsRefusal libraries no_query shown configuration)
      (build_container libraries no_query shown configuration)
build_container-IsBuilt_example =
    build_container-IsBuilt libraries no_query shown configuration configuration
      configuration-accepted is_url

-- A driver that is not asynchronous: the exception comes out.
abbrev strict_libraries : Constructors
strict_libraries = record libraries { create_async_engine = λ engine. raised other }

refused_test : build_container strict_libraries no_query shown configuration ≡ raised other
unfolding build_container build_http_client build_engine constructed async_dsn first_named partition
    has
refused_test = refl

abbrev engine : AsyncEngine
engine = record {
  url = codes "postgresql+asyncpg://app:pw@db/orders";
  pool_size = pos 5;
  max_overflow = 0;
  pool_pre_ping = true;
  hide_parameters = true;
  statement_timeout = codes "5000";
}

abbrev pool : ConnectionPool
pool = record {
  url = codes "redis://cache";
  max_connections = pos 5;
  socket_connect_timeout = finite 1;
  socket_timeout = finite 1;
  decode_responses = false;
}

-- Without a payment provider.
abbrev small : Settings
small = record configuration { payment = none; storage = none }

abbrev small_container : Container
small_container = record {
  settings = small;
  orders = cached (postgres engine) pool (pos 60);
  payments = in_memory_payments;
  engine = some engine;
  http_client = none;
  redis = some pool;
  receipts = in_memory_receipts;
  readiness = record {
    gating = (codes "database", database_is_reachable engine) ∷ [];
    informational = (codes "cache", cache_is_reachable pool) ∷ [];
  };
  started = false;
}

small-built : build_container libraries no_query shown small ≡ ok small_container
unfolding build_container build_engine constructed async_dsn first_named partition has
    build_redis_client register_informational register assign
small-built = refl

-- Redis never answers.
abbrev answers : Check → CheckOutcome
answers (database_is_reachable e) = record { after = some 5; exception = none }
answers (cache_is_reachable p) = record { after = none; exception = none }
answers (storage_is_reachable b) = record { after = none; exception = none }

readiness_iff_example :
    (((readiness (λ n. codes "2.0") answers small_container).status_code ≡ 200)
      ↔ DatabaseAnswers (λ n. codes "2.0") answers (some engine))
    × ((some engine ≡ none) ↔ (some database_settings ≡ none))
readiness_iff_example =
    readiness_iff (λ n. codes "2.0") answers libraries no_query shown small small_container
      small-built

-- A world is the text of what was done to it; closing the engine raises.
abbrev said : String → Exec Text (Unit {0})
said what log = (ok tt, log ++ codes what)

abbrev closers : Closers Text
closers = record {
  dispose = λ e log. (raised other, log ++ codes "engine;");
  aclose_http = λ c. said "http;";
  aclose_redis = λ r. said "redis;";
}

abbrev otel_runtime : OtelRuntime Text
otel_runtime = record {
  instrument_database = λ e. said "";
  instrument_http_client = λ c. said "";
  instrument_redis = said "";
  register_runtime_metrics = λ e. said "";
  stop_metrics = said "metrics;";
  shutdown = said "sdk;";
}

abbrev quiet_closers : Closers Text
quiet_closers = record closers { dispose = λ e. said "engine;" }

close_container-closed_example :
    close_container closers small_container [] ≡ (raised other, codes "engine;redis;")
close_container-closed_example = close_container-closed closers small_container []

close-raised :
    close_container closers small_container
      (served closers (some otel_runtime) (said "served;") small_container [])
    ≡ (raised other, codes "served;engine;redis;")
unfolding close_container instrument
close-raised = refl

lifespan-close_raised_example :
    lifespan closers (some otel_runtime) (said "served;") small_container (false, [])
    ≡ (raised other, (false, codes "served;engine;redis;"))
lifespan-close_raised_example =
    lifespan-close_raised closers (some otel_runtime) (said "served;") small_container (false, [])
      other (codes "served;engine;redis;") close-raised

close-quiet :
    close_container quiet_closers small_container
      (served quiet_closers (some otel_runtime) (said "served;") small_container [])
    ≡ (ok tt, codes "served;engine;redis;")
unfolding close_container instrument
close-quiet = refl

metrics-stopped :
    (stop_metrics quiet_closers
      (some otel_runtime)
      (not (
        is_raised quiet_closers
          (instrument quiet_closers (some otel_runtime) small_container []).0))
      (codes "served;engine;redis;")).0
    ≡ ok tt
unfolding stop_metrics instrument
metrics-stopped = refl

lifespan-released_example :
    (lifespan quiet_closers (some otel_runtime) (said "served;") small_container (false, [])).1.1
    ≡ codes "served;engine;redis;metrics;sdk;"
unfolding stop_metrics instrument shutdown_otel
lifespan-released_example =
    lifespan-released quiet_closers (some otel_runtime) (said "served;") small_container (false, [])
      (codes "served;engine;redis;") close-quiet metrics-stopped
