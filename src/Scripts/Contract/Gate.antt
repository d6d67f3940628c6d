-- ===== src/Scripts/Contract/Gate.antt =====
-- When the gate fails the build.
use pyfr_m8_verify.Scripts.Contract.{
  main, keep_breaking, verdict, breaking_changes, CompletedProcess, Finding, is_breaking,
  range_is_marked_breaking,
}
use pyfr_m8_verify.Base.{
  List, Text, ◌≡◌, ◌↔◌, all, not, true, false, arith, ℕ, ◌∷◌, Bool-cases, inl, inr, ap, [], refl,
}
use pyfr_m8_verify.Errors.{ok}
use pyfr_m8_verify.Settings.Numbers.{at_most}

verdict_iff :
    (findings : List Finding) (log : Text)
    → verdict (keep_breaking findings) log ≡ 1
      ↔ (all (λ f. not (is_breaking f)) findings ≡ false) × (range_is_marked_breaking log ≡ false)
unfolding verdict keep_breaking
verdict_iff [] log = (λ h. ground arith, λ h. cc)
verdict_iff (f ∷ rest) log = elim (Bool-cases (is_breaking f)) [
  | inl e ↦ rw e (λ h. ground arith, λ h. ground arith)
  | inr e ↦ rw e (verdict_iff rest log)
]

-- The build fails exactly when oasdiff ran, which it did if its exit code is at most 1, it reports a
-- change of level 3, and no commit of the range declares a breaking change. Where its exit code is
-- greater the script raises.
pub main_iff :
    (completed : CompletedProcess) (log : Text)
    → main completed log ≡ ok 1
      ↔ (at_most 1 completed.returncode ≡ true)
        × (all (λ f. not (is_breaking f)) completed.findings ≡ false)
        × (range_is_marked_breaking log ≡ false)
unfolding main breaking_changes
main_iff completed log =
    let v = verdict_iff completed.findings log in
    elim (Bool-cases (at_most 1 completed.returncode)) [
      | inl e ↦ rw e (λ h. let p = v.0 (ok-one h) in (refl, p.0, p.1), λ h. ap ok (v.1 (h.1, h.2)))
      | inr e ↦ rw e (λ h. cc, λ h. cc)
    ]
  where
    ok-one : {n : ℕ} → ok n ≡ ok 1 → n ≡ 1
    ok-one e = cc
