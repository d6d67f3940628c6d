-- ===== src/Settings.antt =====
-- settings.py: the configuration and its validators. Reading the environment and parsing text into
-- numbers and URLs is pydantic's; `query_names` is `parse_qs(urlsplit(url).query)`, its keys only.
pub mod Numbers
pub mod Startup
pub mod Validated
use pyfr_m8_verify.Base.{
  List, Bool, Option, Text, ℕ, true, not, if◌then◌else◌, codes, none, leb, ◌||◌, false, some, ◌&&◌,
  ◌∷◌, ◌==◌, [], length, contains,
}
use pyfr_m8_verify.Errors.{Result, ok, raised, validation_error}
use pyfr_m8_verify.Errors.Exec.{bind_result}
use pyfr_m8_verify.Settings.Numbers.{
  Float, not_negative, ℤ, at_least, positive, at_most_one, at_most,
}

pub data LogLevel : Type 0 where
  debug info warning error critical : LogLevel

pub data Environment : Type 0 where
  local staging production : Environment

pub record LogSettings : Type 0 where
  pub level : LogLevel
  pub levels : List (Text × LogLevel)
  pub redact_fields : List Text

pub record OtelSettings : Type 0 where
  pub enabled : Bool
  pub logs_enabled : Bool
  pub endpoint : Option Text
  pub sample_ratio : Float
  pub metric_export_interval_ms : ℤ

-- `not self.endpoint`: unset, or the empty text.
unfoldable pub is_missing : Option Text → Bool
is_missing none = true
is_missing (some []) = true
is_missing (some (c ∷ cs)) = false

-- _exporting_requires_somewhere_to_export_to
unfoldable pub exporting_ok : OtelSettings → Bool
unfolding is_missing
exporting_ok self =
    not (self.enabled && is_missing self.endpoint) && not (self.logs_enabled && not self.enabled)

unfoldable pub new_otel : OtelSettings → Result OtelSettings
unfolding exporting_ok
new_otel self =
    if not_negative self.sample_ratio
      && at_most_one self.sample_ratio
      && at_least 1000 self.metric_export_interval_ms
      && exporting_ok self
    then ok self
    else raised validation_error

abbrev pub libpq_only_parameters : List Text
libpq_only_parameters =
    codes "sslmode" ∷ codes "sslcert" ∷ codes "sslkey" ∷ codes "sslrootcert" ∷ []

-- The first of the parameters that the query names.
unfoldable pub first_named : List Text → List Text → Option Text
unfolding contains
first_named [] names = none
first_named (parameter ∷ rest) names =
    if contains parameter names then some parameter else first_named rest names

pub record DatabaseSettings : Type 0 where
  pub dsn : Text
  pub pool_size : ℤ
  pub statement_timeout_ms : ℤ

abbrev pub is_none {ℓ} : {A : Type ℓ} → Option A → Bool
is_none none = true
is_none (some a) = false

unfoldable pub new_database : (Text → List Text) → DatabaseSettings → Result DatabaseSettings
new_database query_names self =
    if is_none (first_named libpq_only_parameters (query_names self.dsn))
      && at_least 1 self.pool_size
      && at_least 0 self.statement_timeout_ms
    then ok self
    else raised validation_error

pub record HttpClientSettings : Type 0 where
  pub connect_timeout_seconds : Float
  pub read_timeout_seconds : Float
  pub write_timeout_seconds : Float
  pub pool_timeout_seconds : Float
  pub max_connections : ℤ
  pub max_keepalive_connections : ℤ

unfoldable pub new_http_client : HttpClientSettings → Result HttpClientSettings
new_http_client self =
    if positive self.connect_timeout_seconds
      && positive self.read_timeout_seconds
      && positive self.write_timeout_seconds
      && positive self.pool_timeout_seconds
      && at_least 1 self.max_connections
      && at_least 0 self.max_keepalive_connections
    then ok self
    else raised validation_error

pub record PaymentSettings : Type 0 where
  pub base_url : Text
  pub api_key : Option Text
  pub http : HttpClientSettings
  pub retry_attempts : ℤ
  pub retry_initial_wait_seconds : Float
  pub retry_max_wait_seconds : Float
  pub breaker_failure_threshold : ℤ
  pub breaker_reset_after_seconds : Float

unfoldable pub new_payment : PaymentSettings → Result PaymentSettings
new_payment self = bind_result (new_http_client self.http) λ http.
    if at_least 1 self.retry_attempts
      && positive self.retry_initial_wait_seconds
      && positive self.retry_max_wait_seconds
      && at_least 1 self.breaker_failure_threshold
      && positive self.breaker_reset_after_seconds
    then ok (record self { http = http })
    else raised validation_error

pub record CacheSettings : Type 0 where
  pub dsn : Text
  pub ttl_seconds : ℤ
  pub pool_size : ℤ
  pub connect_timeout_seconds : Float
  pub operation_timeout_seconds : Float

unfoldable pub new_cache : CacheSettings → Result CacheSettings
new_cache self =
    if at_least 1 self.ttl_seconds
      && at_least 1 self.pool_size
      && positive self.connect_timeout_seconds
      && positive self.operation_timeout_seconds
    then ok self
    else raised validation_error

-- [a-z0-9]
unfoldable pub is_alphanumeric : ℕ → Bool
is_alphanumeric c = (leb b'a' c && leb c b'z') || (leb b'0' c && leb c b'9')

-- [a-z0-9.-]
unfoldable pub is_bucket_character : ℕ → Bool
is_bucket_character c = is_alphanumeric c || (c == b'.') || (c == b'-')

-- [a-z0-9.-]*[a-z0-9]$
unfoldable pub bucket_tail : Text → Bool
bucket_tail [] = false
bucket_tail (c ∷ []) = is_alphanumeric c
bucket_tail (c ∷ d ∷ rest) = is_bucket_character c && bucket_tail (d ∷ rest)

-- ^[a-z0-9][a-z0-9.-]{1,61}[a-z0-9]$
unfoldable pub bucket_ok : Text → Bool
unfolding bucket_tail
bucket_ok [] = false
bucket_ok (c ∷ rest) =
    is_alphanumeric c && leb 2 (length rest) && leb (length rest) 62 && bucket_tail rest

pub record StorageSettings : Type 0 where
  pub bucket : Text
  pub endpoint_url : Option Text
  pub region : Text
  pub access_key_id : Text
  pub secret_access_key : Text
  pub connect_timeout_seconds : Float
  pub read_timeout_seconds : Float

unfoldable pub new_storage : StorageSettings → Result StorageSettings
unfolding bucket_ok
new_storage self =
    if bucket_ok self.bucket
      && positive self.connect_timeout_seconds
      && positive self.read_timeout_seconds
    then ok self
    else raised validation_error

pub record Settings : Type 0 where
  pub environment : Environment
  pub service_name : Text
  pub http_port : ℤ
  pub log : LogSettings
  pub otel : OtelSettings
  pub database : Option DatabaseSettings
  pub payment : Option PaymentSettings
  pub cache : Option CacheSettings
  pub storage : Option StorageSettings

-- A sub-model that may be left out.
unfoldable pub optional : {A : Type 0} → (A → Result A) → Option A → Result (Option A)
optional new none = ok none
optional new (some a) = bind_result (new a) λ b. ok (some b)

unfoldable pub new_settings : (Text → List Text) → Settings → Result Settings
unfolding optional
new_settings query_names self = bind_result (new_otel self.otel) λ otel.
    bind_result (optional (new_database query_names) self.database) λ database.
      bind_result (optional new_payment self.payment) λ payment.
        bind_result (optional new_cache self.cache) λ cache.
          bind_result (optional new_storage self.storage) λ storage.
            if at_least 1 self.http_port && at_most 65535 self.http_port
            then ok (record self {
              otel = otel;
              database = database;
              payment = payment;
              cache = cache;
              storage = storage;
            })
            else raised validation_error
