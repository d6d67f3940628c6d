-- ===== src/Tests/Scripts.antt =====
-- scripts/check_contract_compatibility.py at concrete histories.
use pyfr_m8_verify.Base.{Text, codes, ◌≡◌, true, some, [], ◌↔◌, ◌∷◌, refl, starts_with, false}
use pyfr_m8_verify.Scripts.Contract.{
  breaking_subject, CompletedProcess, main, drop_lower, is_lower, after_closing,
}
use pyfr_m8_verify.Settings.Numbers.{pos, negsuc}
use pyfr_m8_verify.Errors.{ok}
use pyfr_m8_verify.Scripts.Contract.Subject.{IsMarked, breaking_subject_iff}

abbrev subject : Text
subject = codes "feat(api)!: drop the total"

breaking_subject_iff_example : breaking_subject subject ≡ true ↔ IsMarked subject
breaking_subject_iff_example = breaking_subject_iff subject

subject-breaking : breaking_subject subject ≡ true
unfolding breaking_subject drop_lower is_lower after_closing starts_with
subject-breaking = refl

-- An exclamation mark in the description is prose.
prose-unmarked : breaking_subject (codes "fix: done!: really") ≡ false
unfolding breaking_subject drop_lower is_lower after_closing starts_with
prose-unmarked = refl

abbrev oasdiff : CompletedProcess
oasdiff = record { returncode = pos 1; findings = record { level = some (pos 3) } ∷ [] }

abbrev log : Text
log = codes "fix: rename a field"

main-blocks : main oasdiff log ≡ ok 1
unfolding main is_lower starts_with
main-blocks = refl

-- Docker killed by a signal: the exit code is negative, the output empty, and the build passes.
main-killed : main (record { returncode = negsuc 8; findings = [] }) log ≡ ok 0
unfolding main
main-killed = refl
