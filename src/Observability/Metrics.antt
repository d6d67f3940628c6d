-- ===== src/Observability/Metrics.antt =====
-- observability/metrics.py: the instruments of the service, the probe of the event loop, and what is
-- stopped at the end. The SDK's calls are arguments. A time is a number of the loop's clock.
pub mod Stopped
pub mod Probed
use pyfr_m8_verify.Base.{
  Text, List, Option, Bool, codes, none, some, ℕ, ◌∷◌, [], false, if◌then◌else◌, true, leb, ◌+◌,
  ◌-◌,
}
use pyfr_m8_verify.Errors.Exec.{Exec, pure, handle, ◌>>◌, continue, ◌>>=◌, try_with}
use pyfr_m8_verify.Errors.{Exception, ok, Result}

-- An observation with its attributes.
abbrev pub Observation : Type 0
Observation = ℕ × List (Text × Text)

-- The pool of an engine, as it stands when a gauge asks.
pub data Pool : Type 0 where
  queue_pool : (checked_out checked_in size : ℕ) → Pool
  other_pool : (type_name : Text) → Pool

abbrev pub observe_info : Text → List Observation
observe_info service_version = (1, (codes "service.version", service_version) ∷ []) ∷ []

abbrev pub observe_count : Pool → List Observation
observe_count (queue_pool checked_out checked_in size) =
    (checked_out, (codes "state", codes "used") ∷ [])
    ∷ (checked_in, (codes "state", codes "idle") ∷ [])
    ∷ []
observe_count (other_pool name) = []

abbrev pub observe_max : Pool → List Observation
observe_max (queue_pool checked_out checked_in size) = (size, []) ∷ []
observe_max (other_pool name) = []

-- How a task that was cancelled and waited for has ended.
pub data TaskEnd : Type 0 where
  was_cancelled : TaskEnd
  returned : TaskEnd
  died : Exception → TaskEnd

-- What is called of the SDK, of asyncio and of the logger. A task is known by a number.
pub record Sdk (S : Type 0) : Type 0 where
  pub create_info_gauge : Text → List Observation → Exec S (Unit {0})
  pub create_pool_gauge : Text → (Pool → List Observation) → Exec S (Unit {0})
  pub log_skipped : Text → Exec S (Unit {0})
  pub instrument : List (Text × Option (List Text)) → Exec S (Unit {0})
  pub uninstrument : Exec S (Unit {0})
  pub create_histogram : Text → Exec S (Unit {0})
  pub create_task : Exec S ℕ
  pub cancel_and_wait : ℕ → Exec S TaskEnd
  pub log_probe_died : Exception → Exec S (Unit {0})
  pub record_lag : ℕ → Exec S (Unit {0})
  pub log_record_failed : Exception → Exec S (Unit {0})

-- _PROCESS_METRICS_CONFIG
abbrev pub process_metrics_config : List (Text × Option (List Text))
process_metrics_config =
    (codes "process.cpu.time", some (codes "user" ∷ codes "system" ∷ []))
    ∷ (codes "process.memory.usage", none)
    ∷ (codes "process.memory.virtual", none)
    ∷ (codes "process.open_file_descriptor.count", none)
    ∷ (codes "process.thread.count", none)
    ∷ (codes "cpython.gc.collections", none)
    ∷ (codes "cpython.gc.collected_objects", none)
    ∷ (codes "cpython.gc.uncollectable_objects", none)
    ∷ []

pub record RuntimeMetrics : Type 0 where
  pub probe_task : Option ℕ
  pub instrumented : Bool

module _ {S : Type 0} (sdk : Sdk S) where
  -- _register_pool_metrics
  unfoldable pub register_pool_metrics : Pool → Exec S (Unit {0})
  register_pool_metrics (other_pool name) = sdk.log_skipped name
  register_pool_metrics (queue_pool checked_out checked_in size) = do
    sdk.create_pool_gauge (codes "db.client.connection.count") observe_count
    sdk.create_pool_gauge (codes "db.client.connection.max") observe_max

  abbrev pub register_pool : Option Pool → Exec S (Unit {0})
  register_pool none = pure tt
  register_pool (some pool) = register_pool_metrics pool

  -- register_runtime_metrics, with the pool of the engine
  unfoldable pub register_runtime_metrics : Text → Option Pool → Exec S RuntimeMetrics
  unfolding register_pool_metrics
  register_runtime_metrics service_version pool = do
    sdk.create_info_gauge (codes "service.info") (observe_info service_version)
    register_pool pool
    sdk.instrument process_metrics_config
    sdk.create_histogram (codes "event_loop.lag")
    task ← sdk.create_task
    pure (record { probe_task = some task; instrumented = true })

  -- The exception of a task that ended by itself is logged.
  abbrev pub report : TaskEnd → Exec S (Unit {0})
  report was_cancelled = pure tt
  report returned = pure tt
  report (died e) = sdk.log_probe_died e

  -- What changes the world only.
  abbrev pub beside : {A : Type 0} → Exec S A → Exec (RuntimeMetrics × S) A
  beside call (m, s) = ((call s).0, (m, (call s).1))

  abbrev pub clear_task : Exec (RuntimeMetrics × S) (Unit {0})
  clear_task (m, s) = (ok tt, (record m { probe_task = none }, s))

  abbrev pub clear_instrumentor : Exec (RuntimeMetrics × S) (Unit {0})
  clear_instrumentor (m, s) = (ok tt, (record m { instrumented = false }, s))

  abbrev pub stop_task : Option ℕ → Exec (RuntimeMetrics × S) (Unit {0})
  stop_task none = pure tt
  stop_task (some task) = do
    end ← beside (sdk.cancel_and_wait task)
    beside (report end)
    clear_task

  abbrev pub stop_instrumentor : Bool → Exec (RuntimeMetrics × S) (Unit {0})
  stop_instrumentor false = pure tt
  stop_instrumentor true = do beside sdk.uninstrument; clear_instrumentor

  -- RuntimeMetrics.stop, beside the attributes
  unfoldable pub stop : Exec (RuntimeMetrics × S) (Unit {0})
  stop w =
      let probe_stopped = stop_task w.0.probe_task w in
      continue probe_stopped.0 (λ x v. stop_instrumentor v.0.instrumented v) probe_stopped.1

  -- max(lag, 0.0)
  unfoldable pub clamped_lag : (interval started woke : ℕ) → ℕ
  clamped_lag interval started woke =
      if leb (started + interval) woke then woke - (started + interval) else 0

  -- The turns of _probe_event_loop_lag until it is cancelled: before its sleep and behind it, what the
  -- clock says.
  unfoldable pub probe_event_loop_lag : ℕ → List (ℕ × ℕ) → Exec S (Unit {0})
  unfolding clamped_lag
  probe_event_loop_lag interval [] = pure tt
  probe_event_loop_lag interval ((started, woke) ∷ turns) =
      let rest = probe_event_loop_lag interval turns in
      try_with (sdk.record_lag (clamped_lag interval started woke)) (λ x. rest)
        (λ e. sdk.log_record_failed e >> rest)
