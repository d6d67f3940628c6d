-- ===== src/Infrastructure/Breaker.antt =====
-- infrastructure/http/breaker.py: the circuit breaker. A time is a whole number of 2^-1074 s, the
-- smallest double, and a difference of times is exact (Python rounds it); the window is a double, which
-- may be infinite. Between its `await` points a call runs alone, so a call is two atomic parts:
-- `enter`, before the operation, and `leave`, after it.
pub mod Laws
pub mod Interleaving
pub mod Recovery
use pyfr_m8_verify.Settings.Numbers.{Float, below_zero, finite, infinite, positive}
use pyfr_m8_verify.Base.{
  ℕ, ◌+◌, ◌-◌, Bool, true, false, ◌||◌, Option, none, some, leb, ltb, if◌then◌else◌, not,
}
use pyfr_m8_verify.Errors.{value_error, circuit_open, Result, ok, raised}
use pyfr_m8_verify.Errors.Exec.{Exec}

pub data BreakerState : Type 0 where
  closed open_ half_open : BreakerState

pub record CircuitBreaker : Type 0 where
  pub failure_threshold : ℕ
  pub reset_after : Float
  pub consecutive_failures : ℕ
  pub opened_at : Option ℕ
  pub probe_in_flight : Bool

-- CircuitBreaker.__init__
unfoldable pub new_breaker : ℕ → Float → Result CircuitBreaker
new_breaker failure_threshold reset_after =
    if ltb failure_threshold 1
    then raised value_error
    else if not (positive reset_after)
    then raised value_error
    else ok (record {
      failure_threshold = failure_threshold;
      reset_after = reset_after;
      consecutive_failures = 0;
      opened_at = none;
      probe_in_flight = false;
    })

-- `elapsed >= reset_after`
abbrev pub is_over : Float → ℕ → Bool
is_over below_zero elapsed = true
is_over (finite reset_after) elapsed = leb reset_after elapsed
is_over infinite elapsed = false

state_at : Option ℕ → Float → ℕ → BreakerState
state_at none reset_after now = closed
state_at (some opened_at) reset_after now =
    if is_over reset_after (now - opened_at) then half_open else open_

-- The derived state, when the clock reads `now`. (Where the clock reads less than `opened_at` the
-- difference is 0 here and negative in Python, below the positive `reset_after` in both.)
unfoldable pub state : CircuitBreaker → ℕ → BreakerState
unfolding state_at
state self now = state_at self.opened_at self.reset_after now

admit : BreakerState → CircuitBreaker → Result Bool × CircuitBreaker
admit open_ self = (raised circuit_open, self)
admit half_open self =
    if self.probe_in_flight
    then (raised circuit_open, self)
    else (ok true, record self { probe_in_flight = true })
admit closed self = (ok false, self)

-- `call` up to its `await`: the refusal, or whether the admitted call is a probe.
unfoldable pub enter : CircuitBreaker → ℕ → Result Bool × CircuitBreaker
unfolding admit state
enter self now = admit (state self now) self

unfoldable pub record_success : CircuitBreaker → CircuitBreaker
record_success self = record self { consecutive_failures = 0; opened_at = none }

unfoldable pub record_failure : CircuitBreaker → Bool → ℕ → CircuitBreaker
record_failure self is_probe now =
    if is_probe || leb self.failure_threshold (self.consecutive_failures + 1)
    then record self { consecutive_failures = self.consecutive_failures + 1; opened_at = some now }
    else record self { consecutive_failures = self.consecutive_failures + 1 }

-- How the awaited operation ended. A cancellation is no `Exception`: only the `finally` runs.
pub data Outcome : Type 0 where
  returned failed cancelled : Outcome

settle : CircuitBreaker → Bool → Outcome → ℕ → CircuitBreaker
unfolding record_success record_failure
settle self is_probe returned now = record_success self
settle self is_probe failed now = record_failure self is_probe now
settle self is_probe cancelled now = self

-- `call` after its `await`: `except`, `else` and `finally`.
unfoldable pub leave : CircuitBreaker → Bool → Outcome → ℕ → CircuitBreaker
unfolding settle
leave self is_probe outcome now =
    if is_probe
    then record (settle self is_probe outcome now) { probe_in_flight = false }
    else settle self is_probe outcome now

abbrev pub outcome_of : {A : Type 0} → Result A → Outcome
outcome_of (ok a) = returned
outcome_of (raised e) = failed

module _ {W A : Type 0} (clock : W → ℕ) where
  attempt : Result Bool → Exec W A → Exec (CircuitBreaker × W) A
  unfolding leave
  attempt (raised e) operation (b, w) = (raised e, (b, w))
  attempt (ok is_probe) operation (b, w) =
      let r = operation w in (r.0, (leave b is_probe (outcome_of r.0) (clock r.1), r.1))

  -- CircuitBreaker.call, where no other call runs during the operation.
  unfoldable pub call : Exec W A → Exec (CircuitBreaker × W) A
  unfolding enter attempt
  call operation (b, w) = let e = enter b (clock w) in attempt e.0 operation (e.1, w)
