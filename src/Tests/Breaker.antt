-- ===== src/Tests/Breaker.antt =====
-- infrastructure/http/breaker.py at concrete inputs.
use pyfr_m8_verify.Settings.Numbers.{finite}
use pyfr_m8_verify.Infrastructure.Breaker.Interleaving.{
  end_other, Loop, Reach-one_probe, Reach, here, next, start, idle, flag, started,
}
use pyfr_m8_verify.Base.{ℕ, ◌≡◌, some, none, ◌+◌, false, ◌≤◌, refl}
use pyfr_m8_verify.Infrastructure.Breaker.{failed, leave, CircuitBreaker, enter, new_breaker}
use pyfr_m8_verify.Errors.Exec.{Exec}
use pyfr_m8_verify.Errors.{raised, ok, other}
use pyfr_m8_verify.Infrastructure.Breaker.Recovery.{Reach-recovers}

abbrev pub fresh : CircuitBreaker
fresh = record {
  failure_threshold = 3;
  reset_after = finite 30;
  consecutive_failures = 0;
  opened_at = none;
  probe_in_flight = false;
}

abbrev pub opened : CircuitBreaker
opened = record fresh { consecutive_failures = 3; opened_at = some 100 }

-- The world is the clock itself; the operation takes one tick.
abbrev clock : ℕ → ℕ
clock now = now

abbrev works : Exec ℕ ℕ
works now = (ok 5, now + 1)

abbrev breaks : Exec ℕ ℕ
breaks now = (raised other, now + 1)

one_call : Reach (idle fresh) (started (idle fresh) false fresh)
unfolding enter
one_call = next here (start false fresh refl)

Reach-one_probe_example : (0 ≤ 1) × (0 ≡ flag false)
unfolding new_breaker
Reach-one_probe_example =
    Reach-one_probe 3 (finite 30) fresh (started (idle fresh) false fresh) refl one_call

-- One failure opens it.
abbrev strict : CircuitBreaker
strict = record fresh { failure_threshold = 1 }

abbrev after_failure : Loop
after_failure = record {
  breaker = record strict { consecutive_failures = 1; opened_at = some 0 };
  now = 0;
  probes = 0;
  others = 0;
}

one_failure : Reach (idle strict) after_failure
unfolding enter leave
one_failure = next (next here (start false strict refl)) (end_other failed 0 refl)

Reach-recovers_example :
    (m : Loop) × Reach after_failure m × (m.breaker.opened_at ≡ none) × (m.others ≡ 0)
unfolding new_breaker
Reach-recovers_example = Reach-recovers 1 30 strict after_failure refl one_failure
