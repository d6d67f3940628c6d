-- ===== src/Observability/Metrics/Probed.antt =====
-- The probe goes on.
use pyfr_m8_verify.Base.{ℕ, List, ◌≡◌, ◌∷◌, [], inl, ◌∙◌, ap, inr, refl}
use pyfr_m8_verify.Errors.Exec.{continue, handle, Result-cases}
use pyfr_m8_verify.Errors.{ok, Exception}
use pyfr_m8_verify.Observability.Metrics.{Sdk, probe_event_loop_lag, clamped_lag}

abbrev pub lags : {S : Type 0} → Sdk S → ℕ → List (ℕ × ℕ) → List ℕ
lags sdk interval [] = []
lags sdk interval ((started, woke) ∷ turns) =
    clamped_lag sdk interval started woke ∷ lags sdk interval turns

-- The observations that are tried are put before the earlier ones.
abbrev pub pushed : List ℕ → List ℕ → List ℕ
pushed [] before = before
pushed (n ∷ ns) before = pushed ns (n ∷ before)

-- `trace` reads the observations that were tried of the world.
module _ {S : Type 0} (sdk : Sdk S) (trace : S → List ℕ)
    (traced : (n : ℕ) (s : S) → trace (sdk.record_lag n s).1 ≡ n ∷ trace s)
    (logged : (e : Exception) (s : S)
      → ((sdk.log_record_failed e s).0 ≡ ok tt)
        × (trace (sdk.log_record_failed e s).1 ≡ trace s)) where
  -- Whether a record is accepted or raises, the probe raises nothing and goes on: it tries one
  -- observation for each turn. The trace of the world has each observation that is tried, the latest
  -- first, and logging that one failed raises nothing.
  pub probe_event_loop_lag-goes_on :
      (interval : ℕ) (turns : List (ℕ × ℕ)) (s : S)
      → ((probe_event_loop_lag sdk interval turns s).0 ≡ ok tt)
        × (trace (probe_event_loop_lag sdk interval turns s).1
            ≡ pushed (lags sdk interval turns) (trace s))
  unfolding probe_event_loop_lag
  probe_event_loop_lag-goes_on interval [] s = (refl, refl)
  probe_event_loop_lag-goes_on interval ((started, woke) ∷ turns) s =
      let lag = clamped_lag sdk interval started woke in
      elim (Result-cases (sdk.record_lag lag s).0) [
        | inl (x, e) ↦
            let rest = probe_event_loop_lag-goes_on interval turns (sdk.record_lag lag s).1 in
            rw (e, handle) (rest.0, rest.1 ∙ ap (pushed (lags sdk interval turns)) (traced lag s))
        | inr (x, e) ↦
            let l = logged x (sdk.record_lag lag s).1 in
            let rest =
              probe_event_loop_lag-goes_on interval turns
                (sdk.log_record_failed x (sdk.record_lag lag s).1).1 in
            rw (e, handle, l.0, continue)
              (rest.0, rest.1 ∙ ap (pushed (lags sdk interval turns)) (l.1 ∙ traced lag s))
      ]
