-- ===== src/Infrastructure/Clients.antt =====
-- The clients that are built from settings: infrastructure/db/engine.py, build_http_client of
-- infrastructure/http/client.py, infrastructure/cache/client.py and infrastructure/storage/client.py.
-- A client of another library is the arguments that it is constructed with; what its constructor
-- raises is an argument. `query_names` is
-- `parse_qs(urlsplit(url).query)`, its keys only, and `int_text` is `str` of an int.
pub mod Dsn
use pyfr_m8_verify.Base.{
  Text, List, ℕ, codes, Option, false, Bool, if◌then◌else◌, some, true, has, partition, ◌++◌, none,
}
use pyfr_m8_verify.Settings.Numbers.{Float, ℤ}
use pyfr_m8_verify.Settings.{
  first_named, HttpClientSettings, CacheSettings, StorageSettings, DatabaseSettings, is_none,
  libpq_only_parameters,
}
use pyfr_m8_verify.Errors.{Result, raised, value_error, ok}
use pyfr_m8_verify.Errors.Exec.{bind_result}

pub record AsyncEngine : Type 0 where
  pub url : Text
  pub pool_size : ℤ
  pub max_overflow : ℕ
  pub pool_pre_ping : Bool
  pub hide_parameters : Bool
  pub statement_timeout : Text

pub record AsyncClient : Type 0 where
  pub base_url : Text
  pub headers : List (Text × Text)
  pub connect : Float
  pub read : Float
  pub write : Float
  pub pool : Float
  pub max_connections : ℤ
  pub max_keepalive_connections : ℤ

pub record ConnectionPool : Type 0 where
  pub url : Text
  pub max_connections : ℤ
  pub socket_connect_timeout : Float
  pub socket_timeout : Float
  pub decode_responses : Bool

pub record S3Session : Type 0 where
  pub aws_access_key_id : Text
  pub aws_secret_access_key : Text
  pub region_name : Text

pub record S3Config : Type 0 where
  pub connect_timeout : Float
  pub read_timeout : Float
  pub max_attempts : ℕ
  pub addressing_style : Text

-- What the libraries' constructors raise of their arguments, if anything: SQLAlchemy's of a driver that
-- is not asynchronous or not there, httpx's of a header that is not ASCII.
pub record Constructors : Type 0 where
  pub create_async_engine : AsyncEngine → Result (Unit {0})
  pub async_client : AsyncClient → Result (Unit {0})
  pub connection_pool : ConnectionPool → Result (Unit {0})
  pub session : S3Session → Result (Unit {0})
  pub config : S3Config → Result (Unit {0})

-- A client is known by its arguments.
unfoldable pub constructed : {A : Type 0} → (A → Result (Unit {0})) → A → Result A
constructed construct arguments = bind_result (construct arguments) λ x. ok arguments

abbrev pub separator : Text
separator = codes "://"

abbrev pub asyncpg : Text
asyncpg = codes "postgresql+asyncpg://"

-- After `raw.partition("://")`.
unfoldable pub with_driver : Text → Option (Text × Text) → Result Text
with_driver raw none = raised value_error
with_driver raw (some (scheme, rest)) = if has b'+' scheme then ok raw else ok (asyncpg ++ rest)

unfoldable pub async_dsn : (Text → List Text) → Text → Result Text
unfolding with_driver
async_dsn query_names raw =
    if is_none (first_named libpq_only_parameters (query_names raw))
    then with_driver raw (partition separator raw)
    else raised value_error

-- The arguments of create_async_engine.
abbrev pub engine_of : (ℤ → Text) → Text → DatabaseSettings → AsyncEngine
engine_of int_text url settings = record {
  url = url;
  pool_size = settings.pool_size;
  max_overflow = 0;
  pool_pre_ping = true;
  hide_parameters = true;
  statement_timeout = int_text settings.statement_timeout_ms;
}

-- The arguments of httpx.AsyncClient.
abbrev pub client_of : HttpClientSettings → Text → List (Text × Text) → AsyncClient
client_of settings base_url headers = record {
  base_url = base_url;
  headers = headers;
  connect = settings.connect_timeout_seconds;
  read = settings.read_timeout_seconds;
  write = settings.write_timeout_seconds;
  pool = settings.pool_timeout_seconds;
  max_connections = settings.max_connections;
  max_keepalive_connections = settings.max_keepalive_connections;
}

-- The arguments of ConnectionPool.from_url.
abbrev pub pool_of : CacheSettings → ConnectionPool
pool_of settings = record {
  url = settings.dsn;
  max_connections = settings.pool_size;
  socket_connect_timeout = settings.connect_timeout_seconds;
  socket_timeout = settings.operation_timeout_seconds;
  decode_responses = false;
}

-- The arguments of aioboto3.Session.
abbrev pub session_of : StorageSettings → S3Session
session_of settings = record {
  aws_access_key_id = settings.access_key_id;
  aws_secret_access_key = settings.secret_access_key;
  region_name = settings.region;
}

-- The arguments of AioConfig.
abbrev pub config_of : StorageSettings → S3Config
config_of settings = record {
  connect_timeout = settings.connect_timeout_seconds;
  read_timeout = settings.read_timeout_seconds;
  max_attempts = 2;
  addressing_style = codes "path";
}

module _ (constructors : Constructors) where
  unfoldable pub build_engine :
      (Text → List Text) → (ℤ → Text) → DatabaseSettings → Result AsyncEngine
  unfolding constructed
  build_engine query_names int_text settings =
      bind_result (async_dsn query_names settings.dsn)
        λ url. constructed constructors.create_async_engine (engine_of int_text url settings)

  unfoldable pub build_http_client :
      HttpClientSettings → Text → List (Text × Text) → Result AsyncClient
  unfolding constructed
  build_http_client settings base_url headers =
      constructed constructors.async_client (client_of settings base_url headers)

  unfoldable pub build_redis_client : CacheSettings → Result ConnectionPool
  unfolding constructed
  build_redis_client settings = constructed constructors.connection_pool (pool_of settings)

  unfoldable pub build_s3_session : StorageSettings → Result S3Session
  unfolding constructed
  build_s3_session settings = constructed constructors.session (session_of settings)

  unfoldable pub build_client_config : StorageSettings → Result S3Config
  unfolding constructed
  build_client_config settings = constructed constructors.config (config_of settings)
