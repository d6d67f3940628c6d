-- ===== src/Observability/Otel/Shutdown.antt =====
-- A runtime is shut down once.
use pyfr_m8_verify.Base.{Bool, ◌≡◌, false, true, refl}
use pyfr_m8_verify.Errors.Exec.{continue}
use pyfr_m8_verify.Errors.{ok}
use pyfr_m8_verify.Observability.Otel.{Shutdowns, shutdown, shutdown_logger}

-- However the first shutdown ends, also where the SDK raises, a second one makes no call and raises
-- nothing. A first one calls the tracer provider, then the meter provider, then the logger provider,
-- if there is one, each with the world that the one before left, where none of them raises.
pub shutdown-once :
    {S : Type 0} (calls : Shutdowns S) (s t u : S)
    → calls.tracer_provider s ≡ (ok tt, t)
    → calls.meter_provider t ≡ (ok tt, u)
    → (shutdown calls (false, s) ≡ (
      (shutdown_logger calls.logger_provider u).0,
      (true, (shutdown_logger calls.logger_provider u).1),
    ))
      × ((w : Bool × S) → shutdown calls (shutdown calls w).1 ≡ (ok tt, (shutdown calls w).1))
unfolding shutdown
shutdown-once calls s t u h k = (rw (h, continue, k, continue) refl, again)
  where
    again : (w : Bool × _) → shutdown calls (shutdown calls w).1 ≡ (ok tt, (shutdown calls w).1)
    again (true, x) = refl
    again (false, x) = refl
