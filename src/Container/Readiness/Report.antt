-- ===== src/Container/Readiness/Report.antt =====
-- What `run` reports, and how long it takes.
use pyfr_m8_verify.Base.{
  ℕ, Text, ◌≡◌, some, text_eq, List, ◌<◌, ◌≤◌, none, true, arith, ◌↔◌, take, Option, length,
  if◌then◌else◌, ◌++◌, map, codes, ◌∷◌, [], refl, dict_of, ap,
}
use pyfr_m8_verify.Container.Readiness.{
  CheckOutcome, CheckError, timeout_error, other_error, run_one, slowest, is_ok, in_time, takes,
  run_takes, result_of, ReadinessRegistry, run, timed_out,
}

module _ {C : Type 0} (float_text : ℕ → Text) (timeout : ℕ) (answers : C → CheckOutcome) where
  -- The check ended before the timeout and raised nothing.
  abbrev pub Passes : Text × C → Type 0
  Passes (name, check) =
      (after : ℕ) × ((answers check).after ≡ some after)
      × (after < timeout)
      × ((answers check).exception ≡ none)

  outcome-ok :
      (o : Option ℕ) (x : Option CheckError)
      → (text_eq
            (if in_time timeout o
              then result_of (timed_out float_text timeout answers) x
              else timed_out float_text timeout answers)
            (codes "ok")
          ≡ true)
        ↔ ((after : ℕ) × (o ≡ some after) × (after < timeout) × (x ≡ none))
  unfolding in_time result_of timed_out text_eq
  outcome-ok none x = (λ h. cc, λ (n, e, l, k). cc)
  outcome-ok (some a) none = (λ h. (a, refl, ground arith, refl), λ (n, e, l, k). ground arith)
  outcome-ok (some a) (some timeout_error) = (λ h. absurd (ground arith), λ (n, e, l, k). cc)
  outcome-ok (some a) (some (other_error t)) = (λ h. absurd (ground arith), λ (n, e, l, k). cc)

  pub run_one-ok : (c : Text × C) → (is_ok (run_one float_text timeout answers c) ≡ true) ↔ Passes c
  unfolding run_one
  run_one-ok (name, check) = outcome-ok (answers check).after (answers check).exception

  takes-le : (o : Option ℕ) → takes float_text timeout answers o ≤ timeout
  unfolding takes
  takes-le none = omega arith
  takes-le (some a) = omega arith

  slowest-le : (checks : List (Text × C)) → slowest float_text timeout answers checks ≤ timeout
  unfolding slowest
  slowest-le [] = omega arith
  slowest-le ((name, check) ∷ rest) = omega (arith, takes-le (answers check).after, slowest-le rest)

  -- However many checks there are, in either tier, and whether or not they answer at all, `run` takes no
  -- longer than one timeout.
  pub run_takes-le :
      (registry : ReadinessRegistry C) → run_takes float_text timeout answers registry ≤ timeout
  unfolding run_takes
  run_takes-le registry = slowest-le (registry.gating ++ registry.informational)

  take-map :
      (xs ys : List (Text × C))
      → take (length xs) (
          map (run_one float_text timeout answers) xs
          ++ map (run_one float_text timeout answers) ys)
        ≡ map (run_one float_text timeout answers) xs
  take-map [] ys = refl
  take-map (x ∷ xs) ys = cc (take-map xs ys)

  -- The results are told apart by position: those of the gating checks are the gating report.
  pub run-gating :
      (registry : ReadinessRegistry C)
      → (run float_text timeout answers registry).gating
        ≡ dict_of [] (map (run_one float_text timeout answers) registry.gating)
  unfolding run
  run-gating registry = ap (dict_of []) (take-map registry.gating registry.informational)
