-- ===== src/Observability/Metrics/Stopped.antt =====
-- What stop does, and what it leaves.
use pyfr_m8_verify.Base.{Option, ◌≡◌, ℕ, none, ◌⊎◌, false, true, some, inl, inr, Bool, refl}
use pyfr_m8_verify.Errors.Exec.{continue, ◌>>◌}
use pyfr_m8_verify.Errors.{ok, raised, Exception, Result}
use pyfr_m8_verify.Observability.Metrics.{
  Sdk, RuntimeMetrics, stop, stop_instrumentor, report, clear_task, TaskEnd, clear_instrumentor,
  beside,
}

abbrev pub runtime_metrics : Option ℕ → Bool → RuntimeMetrics
runtime_metrics probe_task instrumented = record {
  probe_task = probe_task;
  instrumented = instrumented;
}

module _ {S : Type 0} (sdk : Sdk S) where
  -- The probe, if there is one, was cancelled and waited for, and where it had died of itself its
  -- exception was logged.
  abbrev pub TaskDone : Option ℕ → S → S → Type 0
  TaskDone none s t = t ≡ s
  TaskDone (some task) s t =
      (end : TaskEnd) × (u : S) × (sdk.cancel_and_wait task s ≡ (ok end, u))
      × (report sdk end u ≡ (ok tt, t))

  -- The wait raised, or the log call behind it.
  abbrev pub TaskFailed : Option ℕ → Exception → S → S → Type 0
  TaskFailed none e s t = ⊥
  TaskFailed (some task) e s t =
      (sdk.cancel_and_wait task s ≡ (raised e, t))
      ⊎ ((end : TaskEnd) × (u : S) × (sdk.cancel_and_wait task s ≡ (ok end, u))
          × (report sdk end u ≡ (raised e, t)))

  -- The instrumentor, if it is there, was undone.
  abbrev pub Undone : Bool → S → S → Type 0
  Undone false s t = t ≡ s
  Undone true s t = sdk.uninstrument s ≡ (ok tt, t)

  -- How a stop of `m` in the world `s` ends.
  pub data Outcome (m : RuntimeMetrics) (s : S) (r : Result (Unit {0}) × (RuntimeMetrics × S))
      : Type 0 where
    released :
        (t u : S)
        → TaskDone m.probe_task s t
        → Undone m.instrumented t u
        → r ≡ (ok tt, (runtime_metrics none false, u))
        → stop sdk (runtime_metrics none false, u) ≡ (ok tt, (runtime_metrics none false, u))
        → Outcome m s r
    probe_held :
        (e : Exception) (t : S)
        → TaskFailed m.probe_task e s t
        → r ≡ (raised e, (m, t))
        → Outcome m s r
    instrumentor_held :
        (e : Exception) (t u : S)
        → TaskDone m.probe_task s t
        → m.instrumented ≡ true
        → sdk.uninstrument t ≡ (raised e, u)
        → r ≡ (raised e, (runtime_metrics none true, u))
        → Outcome m s r

  stopped_again :
      (s : S) → stop sdk (runtime_metrics none false, s) ≡ (ok tt, (runtime_metrics none false, s))
  unfolding stop
  stopped_again s = refl

  uninstrumented :
      (o : Option ℕ) (s t : S) (q : Result (Unit {0}) × S)
      → TaskDone o s t
      → sdk.uninstrument t ≡ q
      → Outcome
          (runtime_metrics o true)
          s
          (continue q.0 (λ x. clear_instrumentor sdk) (runtime_metrics none true, q.1))
  uninstrumented o s t (ok x, u) d h = released t u d h refl (stopped_again u)
  uninstrumented o s t (raised e, u) d h = instrumentor_held e t u d refl h refl

  instrumentor-Outcome :
      (o : Option ℕ) (b : Bool) (s t : S)
      → TaskDone o s t
      → Outcome (runtime_metrics o b) s (stop_instrumentor sdk b (runtime_metrics none b, t))
  instrumentor-Outcome o false s t d = released t t d refl refl (stopped_again t)
  instrumentor-Outcome o true s t d = uninstrumented o s t (sdk.uninstrument t) d refl

  -- What follows the first part.
  abbrev after_task :
      Result (Unit {0}) × (RuntimeMetrics × S) → Result (Unit {0}) × (RuntimeMetrics × S)
  after_task p = continue p.0 (λ x v. stop_instrumentor sdk v.0.instrumented v) p.1

  cleared-Outcome :
      (task : ℕ) (b : Bool) (s u : S) (end : TaskEnd) (q : Result (Unit {0}) × S)
      → sdk.cancel_and_wait task s ≡ (ok end, u)
      → report sdk end u ≡ q
      → Outcome
          (runtime_metrics (some task) b)
          s
          (after_task (continue q.0 (λ x. clear_task sdk) (runtime_metrics (some task) b, q.1)))
  cleared-Outcome task b s u end (ok x, t) h k =
      instrumentor-Outcome (some task) b s t (end, u, h, k)
  cleared-Outcome task b s u end (raised e, t) h k = probe_held e t (inr (end, u, h, k)) refl

  waited-Outcome :
      (task : ℕ) (b : Bool) (s : S) (c : Result TaskEnd × S)
      → sdk.cancel_and_wait task s ≡ c
      → Outcome (runtime_metrics (some task) b) s (
          after_task (
            continue c.0
              (λ end. beside sdk (report sdk end) >> clear_task sdk)
              (runtime_metrics (some task) b, c.1)))
  waited-Outcome task b s (ok end, u) h = cleared-Outcome task b s u end (report sdk end u) h refl
  waited-Outcome task b s (raised e, u) h = probe_held e u (inl h) refl

  parts-Outcome :
      (o : Option ℕ) (b : Bool) (s : S)
      → Outcome (runtime_metrics o b) s (stop sdk (runtime_metrics o b, s))
  unfolding stop
  parts-Outcome none b s = instrumentor-Outcome none b s s refl
  parts-Outcome (some task) b s = waited-Outcome task b s (sdk.cancel_and_wait task s) refl

  -- Whatever the SDK, asyncio and the logger do, a stop ends in one of three ways. The probe was
  -- cancelled and waited for, and logged where it had died of itself, then the instrumentor was undone:
  -- nothing is raised, both are released, and a further stop makes no call. Or the wait for the probe, or
  -- its log call, raised: that is what is raised, and nothing is released. Or undoing the instrumentor
  -- raised, after the probe was stopped: that is what is raised, and only the instrumentor is still held.
  pub stop-Outcome : (m : RuntimeMetrics) (s : S) → Outcome m s (stop sdk (m, s))
  stop-Outcome m s = parts-Outcome m.probe_task m.instrumented s
