-- ===== src/Application/Shutdown.antt =====
-- What is released when the application ends.
use pyfr_m8_verify.Container.{Closers, Container, close_container}
use pyfr_m8_verify.Errors.{Result, Exception, ok, raised}
use pyfr_m8_verify.Base.{Option, ◌≡◌, false, true, refl, not, Bool, ap, ◌∙◌}
use pyfr_m8_verify.Application.{
  lifespan, OtelRuntime, App, outside, instrument, set_started, stop_metrics, is_raised,
  shutdown_otel, clean_up,
}
use pyfr_m8_verify.Errors.Exec.{Exec, continue, ◌>>◌}

module _ {S : Type 0} (closers : Closers S) where
  chain-flag :
      (r : Result (Unit {0})) (m : Exec S (Unit {0})) (w : App S)
      → (continue r (λ x. outside m) w).1.0 ≡ w.0
  chain-flag (ok x) m w = refl
  chain-flag (raised e) m w = refl

  chains-flag :
      (r : Result (Unit {0})) (m n : Exec S (Unit {0})) (w : App S)
      → (continue r (λ x. outside m >> outside n) w).1.0 ≡ w.0
  chains-flag (ok x) m n w = chain-flag (m w.1).0 n (w.0, (m w.1).1)
  chains-flag (raised e) m n w = refl

  -- The world in which the `finally` block starts: after the instrumentation, and after serving if
  -- that raised nothing.
  abbrev pub served : Option (OtelRuntime S) → Exec S (Unit {0}) → Container → S → S
  served otel serve c s =
      (continue (instrument closers otel c s).0 (λ x. serve) (instrument closers otel c s).1).1

  served-world :
      (r : Result (Unit {0})) (serve : Exec S (Unit {0})) (w : App S)
      → (continue r (λ x. set_started true >> outside serve) w).1.1
        ≡ (continue r (λ x. serve) w.1).1
  served-world (ok x) serve w = refl
  served-world (raised e) serve w = refl

  module _ (otel : Option (OtelRuntime S)) (c : Container) (registered : Bool) where
    clean_up-flag : (w : App S) → (clean_up closers otel c registered w).1.0 ≡ false
    unfolding clean_up
    clean_up-flag w =
        chains-flag (close_container closers c w.1).0 (stop_metrics closers otel registered)
          (shutdown_otel closers otel) (false, (close_container closers c w.1).1)

    clean_up-released :
        (w : App S) (t : S)
        → close_container closers c w.1 ≡ (ok tt, t)
        → (stop_metrics closers otel registered t).0 ≡ ok tt
        → (clean_up closers otel c registered w).1.1
          ≡ (shutdown_otel closers otel (stop_metrics closers otel registered t).1).1
    unfolding clean_up
    clean_up-released w t h k = rw (h, continue) (rw (k, continue))

    clean_up-raised :
        (w : App S) (e : Exception) (t : S)
        → close_container closers c w.1 ≡ (raised e, t)
        → clean_up closers otel c registered w ≡ (raised e, (false, t))
    unfolding clean_up
    clean_up-raised w e t h = rw (h, continue)

  -- However the application ends, also where its start fails, it is no longer reported as started.
  pub lifespan-started :
      (otel : Option (OtelRuntime S)) (serve : Exec S (Unit {0})) (c : Container) (w : App S)
      → (lifespan closers otel serve c w).1.0 ≡ false
  unfolding lifespan
  lifespan-started otel serve c w = clean_up-flag otel c _ _

  -- When closing the container returns, all is released, whether the start failed, serving raised or
  -- neither: the container is closed, then the metrics are stopped if they were registered, and where
  -- that returns, the SDK is shut down.
  pub lifespan-released :
      (otel : Option (OtelRuntime S)) (serve : Exec S (Unit {0})) (c : Container) (w : App S)
      (t : S)
      → close_container closers c (served otel serve c w.1) ≡ (ok tt, t)
      → (stop_metrics closers otel (not (is_raised closers (instrument closers otel c w.1).0)) t).0
        ≡ ok tt
      → (lifespan closers otel serve c w).1.1
        ≡ (shutdown_otel closers otel
            (stop_metrics closers otel
              (not (is_raised closers (instrument closers otel c w.1).0))
              t).1).1
  unfolding lifespan
  lifespan-released otel serve c w t h k =
      clean_up-released otel c _ _ t
        (ap (close_container closers c) (
            served-world (instrument closers otel c w.1).0 serve
              (w.0, (instrument closers otel c w.1).1))
          ∙ h)
        k

  -- But when a close raises, the `finally` block ends there: the metrics are not stopped and the SDK is
  -- not shut down, so what it has batched is not flushed.
  pub lifespan-close_raised :
      (otel : Option (OtelRuntime S)) (serve : Exec S (Unit {0})) (c : Container) (w : App S)
      (e : Exception) (t : S)
      → close_container closers c (served otel serve c w.1) ≡ (raised e, t)
      → lifespan closers otel serve c w ≡ (raised e, (false, t))
  unfolding lifespan
  lifespan-close_raised otel serve c w e t h = rw (
      clean_up-raised otel c (not (is_raised closers (instrument closers otel c w.1).0))
        (continue (instrument closers otel c w.1).0 (λ x. set_started true >> outside serve)
          (w.0, (instrument closers otel c w.1).1)).1
        e t
        (ap (close_container closers c) (
            served-world (instrument closers otel c w.1).0 serve
              (w.0, (instrument closers otel c w.1).1))
          ∙ h))
