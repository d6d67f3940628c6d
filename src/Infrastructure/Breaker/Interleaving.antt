-- ===== src/Infrastructure/Breaker/Interleaving.antt =====
-- Any number of calls of one breaker, overlapping in any way that an event loop allows: each call
-- is an `enter` and, later, a `leave`, between which other calls enter and leave.
use pyfr_m8_verify.Settings.Numbers.{Float, positive}
use pyfr_m8_verify.Base.{
  ℕ, suc, ◌+◌, ◌≤◌, ◌<◌, ◌≡◌, Bool, true, false, none, some, arith, sym, ◌∙◌, ap, refl,
}
use pyfr_m8_verify.Errors.{ok, raised, Exception}
use pyfr_m8_verify.Infrastructure.Breaker.{CircuitBreaker, Outcome, enter, leave, new_breaker}

-- The breaker, the clock, and how many probes and other calls are waiting for their operation.
pub record Loop : Type 0 where
  pub breaker : CircuitBreaker
  pub now : ℕ
  pub probes : ℕ
  pub others : ℕ

abbrev pub started : Loop → Bool → CircuitBreaker → Loop
started l true b = record l { breaker = b; probes = l.probes + 1 }
started l false b = record l { breaker = b; others = l.others + 1 }

pub data Step (l : Loop) : Loop → Type 0 where
  wait : (d : ℕ) → Step l (record l { now = l.now + d })
  refuse :
      (e : Exception) (b : CircuitBreaker)
      → enter l.breaker l.now ≡ (raised e, b)
      → Step l (record l { breaker = b })
  start :
      (is_probe : Bool) (b : CircuitBreaker)
      → enter l.breaker l.now ≡ (ok is_probe, b)
      → Step l (started l is_probe b)
  end_probe :
      (o : Outcome) (n : ℕ)
      → l.probes ≡ suc n
      → Step l (record l { breaker = leave l.breaker true o l.now; probes = n })
  end_other :
      (o : Outcome) (n : ℕ)
      → l.others ≡ suc n
      → Step l (record l { breaker = leave l.breaker false o l.now; others = n })

pub data Reach (l : Loop) : Loop → Type 0 where
  here : Reach l l
  next : {m n : Loop} → Reach l m → Step m n → Reach l n

-- The flag tells whether a probe is running, and there is no second one.
abbrev pub flag : Bool → ℕ
flag true = 1
flag false = 0

pub record Inv (l : Loop) : Type 0 where
  pub one_probe : l.probes ≡ flag l.breaker.probe_in_flight
  pub counts :
      l.breaker.opened_at ≡ none → l.breaker.consecutive_failures < l.breaker.failure_threshold
  pub window : positive l.breaker.reset_after ≡ true
  pub threshold : 0 < l.breaker.failure_threshold
  pub past : (t : ℕ) → l.breaker.opened_at ≡ some t → t ≤ l.now

leave-counts :
    (b : CircuitBreaker) (p : Bool) (o : Outcome) (now : ℕ)
    → 0 < b.failure_threshold
    → (b.opened_at ≡ none → b.consecutive_failures < b.failure_threshold)
    → (leave b p o now).opened_at ≡ none
    → (leave b p o now).consecutive_failures < (leave b p o now).failure_threshold
unfolding leave
leave-counts b p o now h c e = ground arith

leave-past :
    (b : CircuitBreaker) (p : Bool) (o : Outcome) (now t : ℕ)
    → ((t : ℕ) → b.opened_at ≡ some t → t ≤ now)
    → (leave b p o now).opened_at ≡ some t
    → t ≤ now
unfolding leave
leave-past b p o now t c e = ground (arith, c t)

leave-params :
    (b : CircuitBreaker) (p : Bool) (o : Outcome) (now : ℕ)
    → ((leave b p o now).reset_after ≡ b.reset_after)
      × ((leave b p o now).failure_threshold ≡ b.failure_threshold)
unfolding leave
leave-params b p o now = ground arith

end_probe-flag :
    (b : CircuitBreaker) (o : Outcome) (now : ℕ) → (leave b true o now).probe_in_flight ≡ false
unfolding leave
end_probe-flag b o now = ground arith

end_other-flag :
    (b : CircuitBreaker) (o : Outcome) (now : ℕ)
    → (leave b false o now).probe_in_flight ≡ b.probe_in_flight
unfolding leave
end_other-flag b o now = ground arith

refuse-same : (b c : CircuitBreaker) (now : ℕ) (e : Exception) → enter b now ≡ (raised e, c) → c ≡ b
unfolding enter
refuse-same b c now e h = ground arith

start-flag :
    (b c : CircuitBreaker) (now : ℕ) (p : Bool)
    → enter b now ≡ (ok p, c)
    → (c.opened_at ≡ b.opened_at)
      × (c.consecutive_failures ≡ b.consecutive_failures)
      × (c.failure_threshold ≡ b.failure_threshold)
      × (c.reset_after ≡ b.reset_after)
      × (flag c.probe_in_flight ≡ flag b.probe_in_flight + flag p)
unfolding enter
start-flag b c now p h = ground arith

flag-le : (b : Bool) → flag b ≤ 1
flag-le true = omega arith
flag-le false = omega arith

Step-Inv : {l m : Loop} → Step l m → Inv l → Inv m
Step-Inv {l} (wait d) v = record {
  one_probe = v.one_probe;
  counts = v.counts;
  window = v.window;
  threshold = v.threshold;
  past = λ t e. ground (arith, v.past t);
}
Step-Inv {l} (refuse e b h) v = rw (refuse-same l.breaker b l.now e h) v
Step-Inv {l} (start true b h) v =
    let (o, f, t, r, g) = start-flag l.breaker b l.now true h in
    record {
      one_probe = omega (arith, g, v.one_probe);
      counts = λ e. ground (arith, o, f, t, v.counts (sym o ∙ e));
      window = ap positive r ∙ v.window;
      threshold = ground (arith, t, v.threshold);
      past = λ u e. v.past u (sym o ∙ e);
    }
Step-Inv {l} (start false b h) v =
    let (o, f, t, r, g) = start-flag l.breaker b l.now false h in
    record {
      one_probe = omega (arith, g, v.one_probe);
      counts = λ e. ground (arith, o, f, t, v.counts (sym o ∙ e));
      window = ap positive r ∙ v.window;
      threshold = ground (arith, t, v.threshold);
      past = λ u e. v.past u (sym o ∙ e);
    }
Step-Inv {l} (end_probe o n h) v =
    let b = l.breaker in
    record {
      one_probe = ground (arith, end_probe-flag b o l.now, v.one_probe, flag-le b.probe_in_flight);
      counts = leave-counts b true o l.now v.threshold v.counts;
      window = ap positive (leave-params b true o l.now).0 ∙ v.window;
      threshold = ground (arith, leave-params b true o l.now, v.threshold);
      past = λ t e. leave-past b true o l.now t v.past e;
    }
Step-Inv {l} (end_other o n h) v =
    let b = l.breaker in
    record {
      one_probe = ground (arith, end_other-flag b o l.now, v.one_probe);
      counts = leave-counts b false o l.now v.threshold v.counts;
      window = ap positive (leave-params b false o l.now).0 ∙ v.window;
      threshold = ground (arith, leave-params b false o l.now, v.threshold);
      past = λ t e. leave-past b false o l.now t v.past e;
    }

pub Reach-Inv : {l m : Loop} → Inv l → Reach l m → Inv m
Reach-Inv v here = v
Reach-Inv v (next r st) = Step-Inv st (Reach-Inv v r)

Step-reset_after : {l m : Loop} → Step l m → m.breaker.reset_after ≡ l.breaker.reset_after
Step-reset_after (wait d) = refl
Step-reset_after {l} (refuse e b h) = ap (λ c. c.reset_after) (refuse-same l.breaker b l.now e h)
Step-reset_after {l} (start true b h) = (start-flag l.breaker b l.now true h).3
Step-reset_after {l} (start false b h) = (start-flag l.breaker b l.now false h).3
Step-reset_after {l} (end_probe o n h) = (leave-params l.breaker true o l.now).0
Step-reset_after {l} (end_other o n h) = (leave-params l.breaker false o l.now).0

pub Reach-reset_after : {l m : Loop} → Reach l m → m.breaker.reset_after ≡ l.breaker.reset_after
Reach-reset_after here = refl
Reach-reset_after (next r st) = Step-reset_after st ∙ Reach-reset_after r

-- A new breaker in an idle event loop.
abbrev pub idle : CircuitBreaker → Loop
idle b = record { breaker = b; now = 0; probes = 0; others = 0 }

pub new-Inv : (n : ℕ) (r : Float) (b : CircuitBreaker) → new_breaker n r ≡ ok b → Inv (idle b)
unfolding new_breaker
new-Inv n r b h = record {
  one_probe = ground arith;
  counts = λ e. ground arith;
  window = ground arith;
  threshold = ground arith;
  past = λ t e. absurd (ground arith);
}

-- From a new breaker, however calls overlap, end or are cancelled, at most one probe is running, and
-- one is running exactly when the flag says so.
pub Reach-one_probe :
    (n : ℕ) (r : Float) (b : CircuitBreaker) (l : Loop)
    → new_breaker n r ≡ ok b
    → Reach (idle b) l
    → (l.probes ≤ 1) × (l.probes ≡ flag l.breaker.probe_in_flight)
Reach-one_probe n r b l h reach =
    let v = Reach-Inv (new-Inv n r b h) reach in
    (ground (arith, v.one_probe, flag-le l.breaker.probe_in_flight), v.one_probe)

-- From a new breaker, however calls overlap, end or are cancelled, whenever the breaker is
-- closed, the failures it has counted are fewer than its threshold.
pub Reach-below_threshold :
    (n : ℕ) (r : Float) (b : CircuitBreaker) (l : Loop)
    → new_breaker n r ≡ ok b
    → Reach (idle b) l
    → l.breaker.opened_at ≡ none
    → l.breaker.consecutive_failures < l.breaker.failure_threshold
Reach-below_threshold n r b l h reach e = (Reach-Inv (new-Inv n r b h) reach).counts e
