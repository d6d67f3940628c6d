-- ===== src/Infrastructure/Breaker/Laws.antt =====
-- One call of the breaker, and calls in a row.
use pyfr_m8_verify.Settings.Numbers.{infinite}
use pyfr_m8_verify.Base.{
  ℕ, ◌-◌, ◌<◌, ◌≡◌, refl, ◌⊎◌, true, Option, none, some, arith, ◌+◌, ◌≤◌, suc, false, ◌∙◌, zero,
  ◌↔◌, inl, ap,
}
use pyfr_m8_verify.Errors.{circuit_open, Exception, raised, ok}
use pyfr_m8_verify.Errors.Exec.{Exec}
use pyfr_m8_verify.Infrastructure.Breaker.{CircuitBreaker, enter, call, leave, is_over}

-- The breaker refuses: it is cooling down, or a probe is running.
abbrev pub Refuses : CircuitBreaker → ℕ → Type 0
Refuses b now =
    (t : ℕ) × (b.opened_at ≡ some t)
    × ((is_over b.reset_after (now - t) ≡ false) ⊎ (b.probe_in_flight ≡ true))

pub Refuses-of_enter :
    (b : CircuitBreaker) (o : Option ℕ) (now : ℕ) (e : Exception)
    → b.opened_at ≡ o
    → (enter b now).0 ≡ raised e
    → Refuses b now
unfolding enter
Refuses-of_enter b none now e p h = ground arith
Refuses-of_enter b (some t) now e p h = (t, p, ground arith)

-- A call is refused exactly while the breaker cools down, or when its window has passed and the one
-- probe is still running; a refusal is CircuitOpenError and changes nothing in the breaker.
pub enter-Refuses :
    (b : CircuitBreaker) (now : ℕ) → (enter b now ≡ (raised circuit_open, b)) ↔ Refuses b now
unfolding enter
enter-Refuses b now =
    (λ h. Refuses-of_enter b b.opened_at now circuit_open refl (ground arith), λ h. ground arith)

-- A breaker whose window is infinite, as the settings accept it, refuses every call while it is open.
pub enter-infinite :
    (b : CircuitBreaker) (t now : ℕ)
    → b.reset_after ≡ infinite
    → b.opened_at ≡ some t
    → enter b now ≡ (raised circuit_open, b)
enter-infinite b t now r o = (enter-Refuses b now).1 (t, o, inl (ap (λ w. is_over w (now - t)) r))

module _ {W A : Type 0} (clock : W → ℕ) (operation : Exec W A) where
  -- A refused call does not run the operation: the world is as it was.
  pub call_refused :
      (b : CircuitBreaker) (w : W)
      → Refuses b (clock w)
      → call clock operation (b, w) ≡ (raised circuit_open, (b, w))
  unfolding call
  call_refused b w h = ground arith

  -- When the window of an open breaker has passed and no probe is running, a call whose
  -- operation returns closes the breaker, clears its count, and returns the same.
  pub call_probe_closes :
      (b : CircuitBreaker) (w w' : W) (t : ℕ) (a : A)
      → b.opened_at ≡ some t
      → is_over b.reset_after (clock w - t) ≡ true
      → b.probe_in_flight ≡ false
      → operation w ≡ (ok a, w')
      → call clock operation (b, w)
        ≡ (ok a, (record b { consecutive_failures = 0; opened_at = none }, w'))
  unfolding call leave
  call_probe_closes b w w' t a o h p k = ground arith

  -- When the window of an open breaker has passed and no probe is running, a call whose
  -- operation raises opens the breaker for another whole window, from the time of the failure,
  -- however few failures were counted, and raises the same.
  pub call_probe_reopens :
      (b : CircuitBreaker) (w w' : W) (t : ℕ) (e : Exception)
      → b.opened_at ≡ some t
      → is_over b.reset_after (clock w - t) ≡ true
      → b.probe_in_flight ≡ false
      → operation w ≡ (raised e, w')
      → call clock operation (b, w) ≡ (
        raised e,
        (
          record b {
            consecutive_failures = b.consecutive_failures + 1;
            opened_at = some (clock w');
          },
          w',
        ),
      )
  unfolding call leave
  call_probe_reopens b w w' t e o h p k = ground arith

  -- The same call made `n` times, one after the other.
  pub call_times : ℕ → CircuitBreaker × W → CircuitBreaker × W
  call_times zero s = s
  call_times (suc n) s = call_times n (call clock operation s).1

  closed_failure :
      (b : CircuitBreaker) (w : W) (e : Exception)
      → b.opened_at ≡ none
      → (operation w).0 ≡ raised e
      → b.consecutive_failures + 1 < b.failure_threshold
      → call clock operation (b, w) ≡ (
        raised e,
        (record b { consecutive_failures = b.consecutive_failures + 1 }, (operation w).1),
      )
  unfolding call leave
  closed_failure b w e o k h = ground arith

  last_failure :
      (b : CircuitBreaker) (w : W) (e : Exception)
      → b.opened_at ≡ none
      → (operation w).0 ≡ raised e
      → b.failure_threshold ≤ b.consecutive_failures + 1
      → call clock operation (b, w) ≡ (
        raised e,
        (
          record b {
            consecutive_failures = b.consecutive_failures + 1;
            opened_at = some (clock (operation w).1);
          },
          (operation w).1,
        ),
      )
  unfolding call leave
  last_failure b w e o k h = ground arith

  module _ (fails : (w : W) → (e : Exception) × ((operation w).0 ≡ raised e)) where
    -- While every call of the operation fails, a closed breaker stays closed and counts, as long
    -- as its count stays under the threshold.
    pub below_threshold :
        (n : ℕ) (b : CircuitBreaker) (w : W)
        → b.opened_at ≡ none
        → b.consecutive_failures + n < b.failure_threshold
        → (call_times n (b, w)).0 ≡ record b { consecutive_failures = b.consecutive_failures + n }
    unfolding call_times
    below_threshold zero b w o h = ground arith
    below_threshold (suc n) b w o h =
        let (e, k) = fails w in
        rw (closed_failure b w e o k (omega arith), call_times)
          (below_threshold n (record b { consecutive_failures = b.consecutive_failures + 1 })
              (operation w).1 o (omega arith)
            ∙ ground arith)

    -- While every call of the operation fails, a closed breaker is opened by the failure that
    -- brings its count to the threshold, at the time of that failure.
    pub at_threshold :
        (n : ℕ) (b : CircuitBreaker) (w : W)
        → b.opened_at ≡ none
        → b.consecutive_failures + suc n ≡ b.failure_threshold
        → (call_times (suc n) (b, w)).0 ≡ record b {
          consecutive_failures = b.failure_threshold;
          opened_at = some (clock (call_times (suc n) (b, w)).1);
        }
    unfolding call_times
    at_threshold zero b w o h =
        let (e, k) = fails w in rw (last_failure b w e o k (omega arith), call_times) (ground arith)
    at_threshold (suc n) b w o h =
        let (e, k) = fails w in
        rw (closed_failure b w e o k (omega arith), call_times)
          (at_threshold n (record b { consecutive_failures = b.consecutive_failures + 1 })
            (operation w).1 o (omega arith))
