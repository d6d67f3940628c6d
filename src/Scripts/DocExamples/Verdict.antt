-- ===== src/Scripts/DocExamples/Verdict.antt =====
-- When the run of the examples passes.
use pyfr_m8_verify.Base.{
  List, ◌≡◌, ◌↔◌, All, ◌∷◌, [], refl, ℕ, ◌≢◌, if◌then◌else◌, suc, zero, arith, Bool, ◌==◌, false,
  ap, true,
}
use pyfr_m8_verify.Errors.{Result, ok, raised}
use pyfr_m8_verify.Errors.Exec.{bind_result}
use pyfr_m8_verify.Settings.Numbers.{ℤ, pos, negsuc}
use pyfr_m8_verify.Scripts.DocExamples.{
  Example, File, main, main_of, count_failures, find_examples, run, exit_code, is_zero,
}

-- One turn of the loop, of what the block and the rest came to.
turn : Result ℤ → Result ℕ → Result ℕ
turn r others =
    bind_result (bind_result r λ returncode. ok (is_zero returncode))
      λ passed. bind_result others λ failures. ok (if passed then failures else suc failures)

ok-injective : {A : Type 0} {a b : A} → ok a ≡ ok b → a ≡ b
ok-injective e = cc

abbrev shown : Result ℤ → Result ℕ
shown (ok (pos n)) = ok n
shown (ok (negsuc n)) = ok 1
shown (raised e) = raised e

some_failed : (f : ℕ) → ok (suc f) ≢ ok 0
some_failed f h = omega (arith, ok-injective h)

not_passed : (b : Bool) (f : ℕ) → b ≡ false → ok (if b then f else suc f) ≢ ok 0
not_passed true f e h = cc
not_passed false f e h = some_failed f h

turn-zero_iff :
    (r : Result ℤ) (others : Result ℕ) → turn r others ≡ ok 0 ↔ (r ≡ ok (pos 0)) × (others ≡ ok 0)
unfolding turn
turn-zero_iff (raised e) others = (λ h. cc, λ h. cc)
turn-zero_iff (ok n) (raised e) = (λ h. cc, λ h. cc)
turn-zero_iff (ok (pos zero)) (ok f) = (λ h. (refl, h), λ h. h.1)
turn-zero_iff (ok (pos (suc n))) (ok f) = (
  λ h. elim (not_passed (suc n == 0) f (ground arith) h) [ ],
  λ h. elim (some_failed n (ap (λ (r : Result ℤ). shown r) h.0)) [ ],
)
turn-zero_iff (ok (negsuc n)) (ok f) = (λ h. elim (some_failed f h) [ ], λ h. cc)

module _ (completed : Example → Result ℤ) where
  abbrev pub Passes : Example → Type 0
  Passes example = completed example ≡ ok (pos 0)

  count_failures-zero_iff :
      (examples : List Example) → count_failures completed examples ≡ ok 0 ↔ All Passes examples
  unfolding count_failures run turn
  count_failures-zero_iff [] = (λ h. _, λ h. refl)
  count_failures-zero_iff (example ∷ rest) =
      let t = turn-zero_iff (completed example) (count_failures completed rest) in
      let others = count_failures-zero_iff rest in
      (λ h. let p = t.0 h in (p.0, others.0 p.1), λ h. t.1 (h.0, others.1 h.1))

  exit_code-zero_iff :
      (r : Result ℕ)
      → bind_result r (λ failures. ok (exit_code completed failures)) ≡ ok 0 ↔ r ≡ ok 0
  exit_code-zero_iff (raised e) = (λ h. cc, λ h. cc)
  exit_code-zero_iff (ok zero) = (λ h. refl, λ h. refl)
  exit_code-zero_iff (ok (suc f)) =
      (λ h. elim (some_failed 0 h) [ ], λ h. elim (some_failed f h) [ ])

  main_of-zero_iff :
      (examples : List Example)
      → main_of completed examples ≡ ok 0 ↔ (examples ≢ []) × All Passes examples
  main_of-zero_iff [] = (λ h. elim (some_failed 0 h) [ ], λ h. elim (h.0 refl) [ ])
  main_of-zero_iff (example ∷ rest) =
      let c = count_failures-zero_iff (example ∷ rest) in
      let x = exit_code-zero_iff (count_failures completed (example ∷ rest)) in
      (λ h. (λ e. cc, c.0 (x.0 h)), λ h. x.1 (c.1 h.1))

  -- The run exits with 0 exactly when some example was found and every one was run and ended with the
  -- return code 0. An exception of a timeout ends the run.
  pub main-zero_iff :
      (files : List File)
      → main completed files ≡ ok 0 ↔ (find_examples files ≢ []) × All Passes (find_examples files)
  unfolding main
  main-zero_iff files = main_of-zero_iff (find_examples files)
