-- ===== src/Infrastructure/Breaker/Recovery.antt =====
-- An open breaker can always be closed again.
use pyfr_m8_verify.Settings.Numbers.{Float, finite}
use pyfr_m8_verify.Infrastructure.Breaker.Interleaving.{
  start, Loop, Reach, Inv, next, here, end_probe, wait, idle, Reach-Inv, new-Inv, flag,
  Reach-reset_after,
}
use pyfr_m8_verify.Infrastructure.Breaker.{leave, enter, CircuitBreaker, new_breaker, returned}
use pyfr_m8_verify.Base.{
  ℕ, ◌≡◌, none, true, some, false, ◌∙◌, ◌≤◌, refl, ◌+◌, arith, ap, Bool-cases, inl, inr,
  Option-cases,
}
use pyfr_m8_verify.Errors.{ok}

-- A later state in which the breaker is closed, reached without any other call ending.
abbrev pub Recovers : Loop → Type 0
Recovers l = (m : Loop) × Reach l m × (m.breaker.opened_at ≡ none) × (m.others ≡ l.others)

returned-closes : (b : CircuitBreaker) (now : ℕ) → (leave b true returned now).opened_at ≡ none
unfolding leave
returned-closes b now = refl

probe-Recovers : (l : Loop) → l.probes ≡ 1 → Recovers l
probe-Recovers l h = (_, next here (end_probe returned 0 h), returned-closes l.breaker l.now, refl)

admitted :
    (b : CircuitBreaker) (t now r : ℕ)
    → b.reset_after ≡ finite r
    → b.opened_at ≡ some t
    → b.probe_in_flight ≡ false
    → t ≤ now
    → enter b (now + r) ≡ (ok true, record b { probe_in_flight = true })
unfolding enter
admitted b t now r w o f h = rw w (ground (arith, o, f, h))

-- The steps of the recovery, after those that were made.
Recovers-after : (l m : Loop) → Reach l m → m.others ≡ l.others → Recovers m → Recovers l
Recovers-after l m r o (n, s, c, p) = (n, joined s, c, p ∙ o)
  where
    joined : {k : Loop} → Reach m k → Reach l k
    joined here = r
    joined (next q st) = next (joined q) st

waiting-Recovers :
    (l : Loop) (t r : ℕ)
    → Inv l
    → l.breaker.reset_after ≡ finite r
    → l.breaker.opened_at ≡ some t
    → l.breaker.probe_in_flight ≡ false
    → Recovers l
waiting-Recovers l t r v w o f =
    Recovers-after l _
      (next (next here (wait r)) (start true _ (admitted l.breaker t l.now r w o f (v.past t o))))
      refl (probe-Recovers _ (omega (arith, v.one_probe, ap flag f)))

new-reset_after :
    (n : ℕ) (r : Float) (b : CircuitBreaker) → new_breaker n r ≡ ok b → b.reset_after ≡ r
unfolding new_breaker
new-reset_after n r b h = ground arith

-- From a new breaker, whatever calls have been made and however they overlap: there is a way on to
-- a closed breaker, on which no call but a probe needs to end, where the window is finite. A hanging
-- call, a failed or a cancelled probe cannot leave such a breaker open for ever.
pub Reach-recovers :
    (n r : ℕ) (b : CircuitBreaker) (l : Loop)
    → new_breaker n (finite r) ≡ ok b
    → Reach (idle b) l
    → (m : Loop) × Reach l m × (m.breaker.opened_at ≡ none) × (m.others ≡ l.others)
Reach-recovers n r b l h reach =
    let v = Reach-Inv (new-Inv n (finite r) b h) reach in
    let w = Reach-reset_after reach ∙ new-reset_after n (finite r) b h in
    elim (Bool-cases l.breaker.probe_in_flight) [
      | inl t ↦ probe-Recovers l (v.one_probe ∙ ap flag t)
      | inr f ↦ elim (Option-cases l.breaker.opened_at) [
        | inl c ↦ (l, here, c, refl)
        | inr (t, o) ↦ waiting-Recovers l t r v w o f
      ]
    ]
