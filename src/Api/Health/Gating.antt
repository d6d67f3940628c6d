-- ===== src/Api/Health/Gating.antt =====
-- Only the database can make an instance unready.
use pyfr_m8_verify.Container.{
  build_container, with_storage, with_cache, Check, with_database, Container, PaymentsAdapter,
  database_is_reachable, OrdersAdapter, wire, select_payments, select_orders, ReceiptsAdapter,
  select_cache, select_receipts,
}
use pyfr_m8_verify.Base.{
  ℕ, Text, List, Option, Bool, some, if◌then◌else◌, ◌≡◌, assign, dict_of, ◌↔◌, codes, all, true,
  arith, [], none, map, refl, ◌&&◌,
}
use pyfr_m8_verify.Container.Readiness.{
  register_informational, CheckOutcome, register, healthy, ReadinessRegistry, new_registry, is_ok,
  run_one, run,
}
use pyfr_m8_verify.Settings.Numbers.{ℤ}
use pyfr_m8_verify.Settings.{Settings, StorageSettings, DatabaseSettings}
use pyfr_m8_verify.Infrastructure.Clients.{
  AsyncEngine, ConnectionPool, AsyncClient, Constructors, build_engine,
}
use pyfr_m8_verify.Api.Health.{readiness, readiness_timeout}
use pyfr_m8_verify.Container.Readiness.Report.{Passes, run_one-ok, run-gating}
use pyfr_m8_verify.Errors.{ok}
use pyfr_m8_verify.Errors.Exec.{bind_result-eq_ok}

ok-injective : {x y : Container} → ok x ≡ ok y → x ≡ y
ok-injective e = cc

-- What `wire` was given.
pub record Wired (s : Settings) (c : Container) : Type 0 where
  pub payments : PaymentsAdapter × Option AsyncClient
  pub engine : Option AsyncEngine
  pub orders : OrdersAdapter × Option ConnectionPool
  pub receipts : ReceiptsAdapter
  pub wired : wire s payments engine orders receipts ≡ c
  pub unset : (engine ≡ none) ↔ (s.database ≡ none)

engine-unset :
    (constructors : Constructors) (query_names : Text → List Text) (int_text : ℤ → Text)
    (o : Option DatabaseSettings) (r : OrdersAdapter × Option AsyncEngine)
    → select_orders constructors query_names int_text o ≡ ok r
    → (r.1 ≡ none) ↔ (o ≡ none)
unfolding select_orders
engine-unset constructors query_names int_text none r h = (λ e. refl, λ e. ground (arith, h))
engine-unset constructors query_names int_text (some d) r h =
    let (engine, _, k) = bind_result-eq_ok (build_engine constructors query_names int_text d) _ h in
    (λ e. absurd (ground (arith, k, e)), λ e. absurd (ground (arith, e)))

build_container-Wired :
    (constructors : Constructors) (query_names : Text → List Text) (int_text : ℤ → Text)
    (s : Settings) (c : Container)
    → build_container constructors query_names int_text s ≡ ok c
    → Wired s c
unfolding build_container
build_container-Wired constructors query_names int_text s c h =
    let (p, _, h1) = bind_result-eq_ok (select_payments constructors s.payment) _ h in
    let (o, q, h2) =
      bind_result-eq_ok (select_orders constructors query_names int_text s.database) _ h1 in
    let (k, _, h3) = bind_result-eq_ok (select_cache constructors s.cache o.0) _ h2 in
    let (r, _, h4) = bind_result-eq_ok (select_receipts constructors s.storage) _ h3 in
    record {
      payments = p;
      engine = o.1;
      orders = k;
      receipts = r;
      wired = ok-injective h4;
      unset = engine-unset constructors query_names int_text s.database o q;
    }

gating-with_storage :
    (o : Option StorageSettings) (p : Option ConnectionPool) (r : ReadinessRegistry Check)
    → (with_storage o (with_cache p r)).gating ≡ r.gating
unfolding with_storage with_cache register_informational
gating-with_storage none none r = refl
gating-with_storage none (some p) r = refl
gating-with_storage (some o) none r = refl
gating-with_storage (some o) (some p) r = refl

module _ (float_text : ℕ → Text) (answers : Check → CheckOutcome) where
  -- No database is configured, or its check ends in time and raises nothing.
  abbrev pub DatabaseAnswers : Option AsyncEngine → Type 0
  DatabaseAnswers none = Unit {0}
  DatabaseAnswers (some engine) =
      Passes float_text readiness_timeout answers (codes "database", database_is_reachable engine)

  one_iff : (b : Bool) → ((b && true) ≡ true) ↔ (b ≡ true)
  one_iff b = (λ h. ground arith, λ h. ground arith)

  ready_iff :
      (engine : Option AsyncEngine)
      → (all is_ok (
            dict_of [] (
              map
                (run_one float_text readiness_timeout answers)
                (with_database engine new_registry).gating))
          ≡ true)
        ↔ DatabaseAnswers engine
  unfolding with_database register assign dict_of
  ready_iff none = (λ h. tt, λ h. refl)
  ready_iff (some engine) =
      let c : Text × Check = (codes "database", database_is_reachable engine) in
      let r = one_iff (is_ok (run_one float_text readiness_timeout answers c)) in
      let k = run_one-ok float_text readiness_timeout answers c in
      (λ h. k.0 (r.0 h), λ h. r.1 (k.1 h))

  status_iff : (b : Bool) (n : ℕ) → n ≡ (if b then 200 else 503) → (n ≡ 200) ↔ (b ≡ true)
  status_iff b n e = (λ h. ground arith, λ h. ground arith)

  healthy_iff :
      (c : Container) (s : Settings)
      → Wired s c
      → (healthy (run float_text readiness_timeout answers c.readiness) ≡ true)
        ↔ DatabaseAnswers c.engine
  unfolding healthy wire
  healthy_iff c s w = rw (← w.wired) (rw run-gating (rw gating-with_storage (ready_iff w.engine)))

  engine-none : (c : Container) (s : Settings) → Wired s c → (c.engine ≡ none) ↔ (s.database ≡ none)
  unfolding wire
  engine-none c s w = rw (← w.wired) w.unset

  -- Of a container that `build_container` built, /readyz answers 200 exactly when no database is
  -- configured or the database check ends in time and raises nothing: what the cache and the object
  -- store answer, or that they never do, has no influence on the status. The container
  -- has no engine exactly when the settings configure no database.
  pub readiness_iff :
      (constructors : Constructors) (query_names : Text → List Text) (int_text : ℤ → Text)
      (s : Settings) (c : Container)
      → build_container constructors query_names int_text s ≡ ok c
      → (((readiness float_text answers c).status_code ≡ 200) ↔ DatabaseAnswers c.engine)
        × ((c.engine ≡ none) ↔ (s.database ≡ none))
  unfolding readiness
  readiness_iff constructors query_names int_text s c h =
      let w = build_container-Wired constructors query_names int_text s c h in
      let k = healthy_iff c s w in
      let r = status_iff (healthy (run float_text readiness_timeout answers c.readiness)) _ refl in
      ((λ q. k.0 (r.0 q), λ q. r.1 (k.1 q)), engine-none c s w)
