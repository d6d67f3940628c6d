-- ===== src/Application.antt =====
-- main.py: the life cycle of the application, `lifespan` of `create_app`. The instrumentation calls, the
-- serving of requests and the shutdown of the SDK are arguments; building the container is in Container,
-- and what create_app puts together before it is in Assembly.
pub mod Shutdown
pub mod Assembly
use pyfr_m8_verify.Base.{Bool, Option, some, false, none, true, not}
use pyfr_m8_verify.Errors.Exec.{Exec, pure, ◌>>◌, continue, overrule}
use pyfr_m8_verify.Infrastructure.Clients.{AsyncEngine, AsyncClient}
use pyfr_m8_verify.Container.{Closers, Container, if_open, close_container}
use pyfr_m8_verify.Errors.{ok, Result, raised}

-- The world of one application: the container's `started` flag beside the rest.
abbrev pub App : Type 0 → Type 0
App S = Bool × S

abbrev pub outside : {S A : Type 0} → Exec S A → Exec (App S) A
outside m (started, s) = ((m s).0, (started, (m s).1))

abbrev pub set_started : {S : Type 0} → Bool → Exec (App S) (Unit {0})
set_started b (started, s) = (ok tt, (b, s))

-- A configured OpenTelemetry runtime, with the metrics that `register_runtime_metrics` returns.
pub record OtelRuntime (S : Type 0) : Type 0 where
  pub instrument_database : AsyncEngine → Exec S (Unit {0})
  pub instrument_http_client : AsyncClient → Exec S (Unit {0})
  pub instrument_redis : Exec S (Unit {0})
  pub register_runtime_metrics : Option AsyncEngine → Exec S (Unit {0})
  pub stop_metrics : Exec S (Unit {0})
  pub shutdown : Exec S (Unit {0})

module _ {S : Type 0} (closers : Closers S) where
  -- The statements before `container.started = True`.
  unfoldable pub instrument : Option (OtelRuntime S) → Container → Exec S (Unit {0})
  instrument none container = pure tt
  instrument (some otel) container = do
    if_open otel.instrument_database container.engine
    if_open otel.instrument_http_client container.http_client
    otel.instrument_redis
    otel.register_runtime_metrics container.engine

  -- `runtime_metrics` is bound by the last of these statements only.
  unfoldable pub stop_metrics : Option (OtelRuntime S) → Bool → Exec S (Unit {0})
  stop_metrics (some otel) true = otel.stop_metrics
  stop_metrics (some otel) false = pure tt
  stop_metrics none registered = pure tt

  unfoldable pub shutdown_otel : Option (OtelRuntime S) → Exec S (Unit {0})
  shutdown_otel none = pure tt
  shutdown_otel (some otel) = otel.shutdown

  -- The `finally` block.
  unfoldable pub clean_up : Option (OtelRuntime S) → Container → Bool → Exec (App S) (Unit {0})
  unfolding stop_metrics shutdown_otel
  clean_up otel container registered = do
    set_started false
    outside (close_container closers container)
    outside (stop_metrics otel registered)
    outside (shutdown_otel otel)

  abbrev pub is_raised : {A : Type 0} → Result A → Bool
  is_raised (ok a) = false
  is_raised (raised e) = true

  -- The `try` block with its `finally`, after the container is built. `serve` is the `yield`.
  unfoldable pub lifespan :
      Option (OtelRuntime S) → Exec S (Unit {0}) → Container → Exec (App S) (Unit {0})
  lifespan otel serve container w =
      let i = outside (instrument otel container) w in
      let r = continue i.0 (λ x. set_started true >> outside serve) i.1 in
      let c = clean_up otel container (not (is_raised i.0)) r.1 in (overrule r.0 c.0, c.1)
