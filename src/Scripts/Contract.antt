-- ===== src/Scripts/Contract.antt =====
-- scripts/check_contract_compatibility.py: a breaking change of the API needs a commit that says so. What
-- oasdiff and `git log` print is an argument; what the script prints is not modelled.
pub mod Subject
pub mod Gate
use pyfr_m8_verify.Base.{
  ℕ, Text, Option, Bool, List, leb, ◌∷◌, none, codes, false, starts_with, ◌||◌, some, if◌then◌else◌,
  ◌&&◌, ◌==◌, [], true, not, reverse, is_whitespace, stripped,
}
use pyfr_m8_verify.Settings.Numbers.{ℤ, pos, at_most, negsuc}
use pyfr_m8_verify.Errors.{Result, ok, raised, runtime_error}
use pyfr_m8_verify.Errors.Exec.{bind_result}

-- [a-z]
unfoldable pub is_lower : ℕ → Bool
is_lower c = leb b'a' c && leb c b'z'

unfoldable pub drop_lower : Text → Text
drop_lower [] = []
drop_lower (c ∷ s) = let rest = drop_lower s in if is_lower c then rest else c ∷ s

-- What follows [a-z]+ at the start; the expression goes on with a character that is not in [a-z].
unfoldable pub after_type : Text → Option Text
unfolding drop_lower
after_type [] = none
after_type (c ∷ s) = if is_lower c then some (drop_lower s) else none

-- What follows [^)]*\)
unfoldable pub after_closing : Text → Option Text
after_closing [] = none
after_closing (c ∷ s) = let rest = after_closing s in if c == b')' then some s else rest

-- What follows (\([^)]*\))? where `!` is to follow.
unfoldable pub after_scope : Text → Option Text
unfolding after_closing
after_scope [] = none
after_scope (c ∷ s) = if c == b'(' then after_closing s else some (c ∷ s)

abbrev pub bang : Text
bang = codes "!:"

abbrev pub then_bang : Option Text → Bool
then_bang none = false
then_bang (some s) = starts_with bang s

abbrev pub scoped_bang : Option Text → Bool
scoped_bang none = false
scoped_bang (some s) = then_bang (after_scope s)

-- _BREAKING_SUBJECT.match
unfoldable pub breaking_subject : Text → Bool
unfolding after_type after_scope
breaking_subject s = scoped_bang (after_type s)

unfoldable pub is_footer : Text → Bool
is_footer s = starts_with (codes "BREAKING CHANGE:") s || starts_with (codes "BREAKING-CHANGE:") s

-- _BREAKING_FOOTER.search, where `at_start` says whether the text is at the start of a line.
unfoldable pub footer_from : Bool → Text → Bool
unfolding is_footer
footer_from at_start [] = false
footer_from at_start (c ∷ s) = (at_start && is_footer (c ∷ s)) || footer_from (c == 10) s

-- The line boundaries of str.splitlines.
unfoldable pub is_boundary : ℕ → Bool
is_boundary c =
    (leb 10 c && leb c 13) || (leb 28 c && leb c 30) || (c == 133) || (c == 8232) || (c == 8233)

-- message.splitlines()[0] if message else ""
unfoldable pub first_line : Text → Text
unfolding is_boundary
first_line [] = []
first_line (c ∷ s) = let rest = first_line s in if is_boundary c then [] else c ∷ rest

unfoldable pub message_is_breaking : Text → Bool
unfolding breaking_subject footer_from first_line
message_is_breaking message = breaking_subject (first_line message) || footer_from true message

abbrev pub onto : ℕ → List Text → List Text
onto c [] = (c ∷ []) ∷ []
onto c (t ∷ ts) = (c ∷ t) ∷ ts

-- stdout.split("\0")
unfoldable pub split_nul : Text → List Text
split_nul [] = [] ∷ []
split_nul (c ∷ s) = let rest = split_nul s in if c == 0 then [] ∷ rest else onto c rest

abbrev pub is_blank : Text → Bool
is_blank [] = true
is_blank (c ∷ s) = false

-- A blank message is skipped.
unfoldable pub any_breaking : List Text → Bool
unfolding message_is_breaking stripped
any_breaking [] = false
any_breaking (message ∷ rest) =
    (not (is_blank (stripped message)) && message_is_breaking (stripped message))
    || any_breaking rest

-- range_is_marked_breaking, of what `git log` prints.
unfoldable pub range_is_marked_breaking : Text → Bool
unfolding any_breaking split_nul
range_is_marked_breaking stdout = any_breaking (split_nul stdout)

-- An entry of what oasdiff prints, by its level.
pub record Finding : Type 0 where
  pub level : Option ℤ

-- The run of oasdiff in its container. `findings` is what its standard output holds: none where it
-- is empty.
pub record CompletedProcess : Type 0 where
  pub returncode : ℤ
  pub findings : List Finding

abbrev pub is_level : Option ℤ → Bool
is_level (some (pos n)) = n == 3
is_level (some (negsuc n)) = false
is_level none = false

-- f.get("level") == BREAKING_LEVEL
unfoldable pub is_breaking : Finding → Bool
is_breaking f = is_level f.level

unfoldable pub keep_breaking : List Finding → List Finding
unfolding is_breaking
keep_breaking [] = []
keep_breaking (f ∷ rest) = let kept = keep_breaking rest in if is_breaking f then f ∷ kept else kept

unfoldable pub breaking_changes : CompletedProcess → Result (List Finding)
unfolding keep_breaking
breaking_changes completed =
    if at_most 1 completed.returncode
    then ok (keep_breaking completed.findings)
    else raised runtime_error

-- The exit code of `main`, after `breaking_changes`.
unfoldable pub verdict : List Finding → Text → ℕ
unfolding range_is_marked_breaking
verdict [] log = 0
verdict (f ∷ rest) log = if range_is_marked_breaking log then 0 else 1

unfoldable pub main : CompletedProcess → Text → Result ℕ
unfolding breaking_changes verdict
main completed log = bind_result (breaking_changes completed) λ findings. ok (verdict findings log)
