-- ===== src/Scripts/DocExamples.antt =====
-- scripts/check_doc_examples.py: the marked shell blocks of the documentation, and the exit code of the
-- run of all. `completed` is the return code of bash on a block, or the exception of its timeout.
pub mod Verdict
use pyfr_m8_verify.Base.{
  Text, List, Option, Bool, codes, none, some, true, false, ◌∷◌, text_eq, ℕ, starts_with, contains,
  ◌==◌, if◌then◌else◌, ◌||◌, ◌++◌, suc, [], zero,
}
use pyfr_m8_verify.Errors.{Result, ok}
use pyfr_m8_verify.Errors.Exec.{bind_result}
use pyfr_m8_verify.Settings.Numbers.{ℤ, pos, negsuc}
use pyfr_m8_verify.Scripts.Contract.{onto}

-- text.split("\n")
unfoldable pub split_newlines : Text → List Text
split_newlines [] = [] ∷ []
split_newlines (c ∷ s) = let rest = split_newlines s in if c == 10 then [] ∷ rest else onto c rest

abbrev pub marker : Text
marker = codes "<!-- exec -->"

abbrev pub fence : Text
fence = codes "```"

abbrev pub opens_block : Text → Bool
opens_block line =
    text_eq line (codes "```bash")
    || text_eq line (codes "```shell")
    || text_eq line (codes "```console")

abbrev pub longer : Text → Option (Text × ℕ) → Option (Text × ℕ)
longer line none = none
longer line (some (body, n)) = some (line ++ (10 ∷ body), suc n)

-- The lines up to the first that starts with a fence, each with its newline, and how many lines that is,
-- the last one included.
unfoldable pub block_body : List Text → Option (Text × ℕ)
unfolding starts_with
block_body [] = none
block_body (line ∷ rest) =
    let later = block_body rest in
    if starts_with fence line then some ([], 1) else longer line later

abbrev pub longer_by_one : Option (Text × ℕ) → Option (Text × ℕ)
longer_by_one none = none
longer_by_one (some (body, n)) = some (body, suc n)

abbrev pub behind_fence : List Text → Option (Text × ℕ)
behind_fence [] = none
behind_fence (line ∷ rest) = if opens_block line then longer_by_one (block_body rest) else none

-- _BLOCK, at the start of a line: the body, and how many lines the match takes behind its first.
unfoldable pub block_at : List Text → Option (Text × ℕ)
unfolding block_body text_eq
block_at [] = none
block_at (line ∷ rest) = if text_eq line marker then behind_fence rest else none

pub record Example : Type 0 where
  pub path : Text
  pub line : ℕ
  pub body : Text

abbrev pub skip_of : Option (Text × ℕ) → ℕ
skip_of none = 0
skip_of (some (body, n)) = n

abbrev pub added : Text → ℕ → Option (Text × ℕ) → List Example → List Example
added path line none rest = rest
added path line (some (body, n)) rest = record { path = path; line = line; body = body } ∷ rest

-- _BLOCK.finditer: `skip` lines still belong to the last match.
unfoldable pub blocks_from : Text → ℕ → ℕ → List Text → List Example
unfolding block_at
blocks_from path skip line [] = []
blocks_from path (suc skip) line (l ∷ ls) = blocks_from path skip (suc line) ls
blocks_from path zero line (l ∷ ls) =
    let found = block_at (l ∷ ls) in
    let rest = blocks_from path (skip_of found) (suc line) ls in added path line found rest

-- A file, with the parts of its path and its text.
pub record File : Type 0 where
  pub path : Text
  pub parts : List Text
  pub text : Text

-- find_examples, of the files in their order
unfoldable pub find_examples : List File → List Example
unfolding blocks_from split_newlines contains
find_examples [] = []
find_examples (file ∷ files) =
    let rest = find_examples files in
    if contains (codes "superpowers") file.parts
    then rest
    else blocks_from file.path 0 1 (split_newlines file.text) ++ rest

abbrev pub is_zero : ℤ → Bool
is_zero (pos n) = n == 0
is_zero (negsuc n) = false

module _ (completed : Example → Result ℤ) where
  -- run: whether the block passed
  unfoldable pub run : Example → Result Bool
  run example = bind_result (completed example) λ returncode. ok (is_zero returncode)

  -- The loop of main: how many failed.
  unfoldable pub count_failures : List Example → Result ℕ
  unfolding run
  count_failures [] = ok 0
  count_failures (example ∷ rest) =
      let others = count_failures rest in
      bind_result (run example)
        λ passed. bind_result others λ failures. ok (if passed then failures else suc failures)

  abbrev pub exit_code : ℕ → ℕ
  exit_code zero = 0
  exit_code (suc failures) = 1

  abbrev pub main_of : List Example → Result ℕ
  main_of [] = ok 1
  main_of (example ∷ rest) =
      bind_result (count_failures (example ∷ rest)) λ failures. ok (exit_code failures)

  -- main
  unfoldable pub main : List File → Result ℕ
  unfolding find_examples count_failures
  main files = main_of (find_examples files)
