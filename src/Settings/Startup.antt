-- ===== src/Settings/Startup.antt =====
-- What the program may rely on once it has its settings.
use pyfr_m8_verify.Base.{
  Text, List, ◌≡◌, Option, some, arith, Bool, if◌then◌else◌, none, true, false, ◌∙◌, all, not, ◌⊎◌,
  contains, ◌∷◌, [], refl,
}
use pyfr_m8_verify.Settings.{
  new_otel, new_database, new_storage, optional, Settings, OtelSettings, StorageSettings,
  DatabaseSettings, PaymentSettings, CacheSettings, new_settings, new_payment, new_cache,
  first_named, is_none, exporting_ok, libpq_only_parameters, is_missing,
}
use pyfr_m8_verify.Errors.{Result, ok, raised, validation_error}
use pyfr_m8_verify.Errors.Exec.{bind_result-eq_ok}

-- What the validators of the parts have established.
pub record IsValid (query_names : Text → List Text) (t : Settings) : Type 0 where
  pub otel : new_otel t.otel ≡ ok t.otel
  pub database : (d : DatabaseSettings) → t.database ≡ some d → new_database query_names d ≡ ok d
  pub storage : (d : StorageSettings) → t.storage ≡ some d → new_storage d ≡ ok d

new_otel-same : (o p : OtelSettings) → new_otel o ≡ ok p → o ≡ p
unfolding new_otel
new_otel-same o p h = ground arith

new_database-same :
    (query_names : Text → List Text) (o p : DatabaseSettings)
    → new_database query_names o ≡ ok p
    → o ≡ p
unfolding new_database
new_database-same query_names o p h = ground arith

new_storage-same : (o p : StorageSettings) → new_storage o ≡ ok p → o ≡ p
unfolding new_storage
new_storage-same o p h = ground arith

optional-valid :
    {A : Type 0} (new : A → Result A) (o p : Option A) (a : A)
    → ((x y : A) → new x ≡ ok y → x ≡ y)
    → optional new o ≡ ok p
    → p ≡ some a
    → new a ≡ ok a
unfolding optional
optional-valid new none p a same h e = cc
optional-valid new (some x) p a same h e =
    let (b, k, l) = bind_result-eq_ok (new x) (λ b. ok (some b)) h in
    let m = same x b k in cc (m, k, l, e)

kept :
    (s : Settings) (otel : OtelSettings) (database : Option DatabaseSettings)
    (payment : Option PaymentSettings) (cache : Option CacheSettings)
    (storage : Option StorageSettings) (t : Settings) (b : Bool)
    → (if b
        then ok (record s {
          otel = otel;
          database = database;
          payment = payment;
          cache = cache;
          storage = storage;
        })
        else raised validation_error)
      ≡ ok t
    → (otel ≡ t.otel) × (database ≡ t.database) × (storage ≡ t.storage)
kept s otel database payment cache storage t true h = (cc, cc, cc)
kept s otel database payment cache storage t false h = cc

new_settings-IsValid :
    (query_names : Text → List Text) (s t : Settings)
    → new_settings query_names s ≡ ok t
    → IsValid query_names t
unfolding new_settings
new_settings-IsValid query_names s t h =
    let (otel, o, h1) = bind_result-eq_ok (new_otel s.otel) _ h in
    let (database, d, h2) =
      bind_result-eq_ok (optional (new_database query_names) s.database) _ h1 in
    let (payment, p, h3) = bind_result-eq_ok (optional new_payment s.payment) _ h2 in
    let (cache, c, h4) = bind_result-eq_ok (optional new_cache s.cache) _ h3 in
    let (storage, r, h5) = bind_result-eq_ok (optional new_storage s.storage) _ h4 in
    let k = kept s otel database payment cache storage t _ h5 in
    let same = new_otel-same s.otel otel o in
    record {
      otel = cc (same, o, k.0);
      database = λ x e.
          optional-valid (new_database query_names) s.database database x
            (new_database-same query_names) d (k.1 ∙ e);
      storage = λ x e. optional-valid new_storage s.storage storage x new_storage-same r (k.2 ∙ e);
    }

first_named-none :
    (parameters names : List Text)
    → is_none (first_named parameters names) ≡ true
    → all (λ p. not (contains p names)) parameters ≡ true
unfolding first_named
first_named-none [] names h = refl
first_named-none (p ∷ rest) names h = unfold contains in ground (arith, first_named-none rest names)

database-named :
    (query_names : Text → List Text) (d : DatabaseSettings)
    → new_database query_names d ≡ ok d
    → is_none (first_named libpq_only_parameters (query_names d.dsn)) ≡ true
unfolding new_database
database-named query_names d h = ground arith

-- In settings that are accepted, the query of the database's DSN names no parameter that only libpq
-- reads.
pub new_settings-no_libpq :
    (query_names : Text → List Text) (s t : Settings) (d : DatabaseSettings)
    → new_settings query_names s ≡ ok t
    → t.database ≡ some d
    → all (λ p. not (contains p (query_names d.dsn))) libpq_only_parameters ≡ true
new_settings-no_libpq query_names s t d h e =
    first_named-none libpq_only_parameters (query_names d.dsn)
      (database-named query_names d ((new_settings-IsValid query_names s t h).database d e))

otel-exports :
    (o : OtelSettings)
    → new_otel o ≡ ok o
    → ((o.enabled ≡ false) × (o.logs_enabled ≡ false))
      ⊎ ((o.enabled ≡ true) × (is_missing o.endpoint ≡ false))
unfolding new_otel exporting_ok
otel-exports o h = ground arith

-- In settings that are accepted, either nothing is exported, traces and logs alike, or traces are and
-- there is an endpoint, which is not empty, to export to.
pub new_settings-exports :
    (query_names : Text → List Text) (s t : Settings)
    → new_settings query_names s ≡ ok t
    → ((t.otel.enabled ≡ false) × (t.otel.logs_enabled ≡ false))
      ⊎ ((t.otel.enabled ≡ true) × (is_missing t.otel.endpoint ≡ false))
new_settings-exports query_names s t h =
    otel-exports t.otel (new_settings-IsValid query_names s t h).otel
