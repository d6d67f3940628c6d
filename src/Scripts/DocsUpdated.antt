-- ===== src/Scripts/DocsUpdated.antt =====
-- scripts/check_docs_updated.py: the gate that a change of the source comes with one of the documentation.
-- Parsing the arguments is argparse's.
pub mod Gate
use pyfr_m8_verify.Base.{
  none, true, false, Text, List, Option, Bool, codes, starts_with, ℕ, ◌∷◌, word, some, leb,
  if◌then◌else◌, ◌||◌, ◌&&◌, [], ◌==◌, not,
}
use pyfr_m8_verify.Scripts.Contract.{is_boundary}
use pyfr_m8_verify.Errors.{Result, ok}
use pyfr_m8_verify.Errors.Exec.{bind_result}

-- The line that the text starts with, and the lines after it that are not empty.
unfoldable pub split_lines : Text → Text × List Text
unfolding is_boundary
split_lines [] = ([], [])
split_lines (c ∷ s) =
    let (line, rest) = split_lines s in
    if is_boundary c then ([], word line rest) else (c ∷ line, rest)

-- [line for line in stdout.splitlines() if line]
unfoldable pub lines_of : Text → List Text
unfolding split_lines
lines_of s = let (line, rest) = split_lines s in word line rest

-- path.startswith(tuple(prefixes))
unfoldable pub starts_with_any : List Text → Text → Bool
unfolding starts_with
starts_with_any [] path = false
starts_with_any (prefix ∷ rest) path = starts_with prefix path || starts_with_any rest path

-- changed_files, of what `git diff` printed, or of the exception where it failed
unfoldable pub changed_files : Result Text → Result (List Text)
unfolding lines_of
changed_files stdout = bind_result stdout λ s. ok (lines_of s)

unfoldable pub source_changes : List Text → List Text → List Text
unfolding starts_with_any
source_changes prefixes [] = []
source_changes prefixes (path ∷ paths) =
    let rest = source_changes prefixes paths in
    if starts_with_any prefixes path then path ∷ rest else rest

abbrev pub is_excluded : Option Text → Text → Bool
is_excluded none path = false
is_excluded (some prefix) path = starts_with prefix path

unfoldable pub touches_docs : List Text → Option Text → List Text → Bool
unfolding starts_with_any
touches_docs docs_paths excluded_prefix [] = false
touches_docs docs_paths excluded_prefix (path ∷ paths) =
    (starts_with_any docs_paths path && not (is_excluded excluded_prefix path))
    || touches_docs docs_paths excluded_prefix paths

-- DEFAULT_SOURCE_PREFIXES, DEFAULT_DOCS_PATHS
abbrev pub default_source_prefixes : List Text
default_source_prefixes = codes "src/" ∷ []

abbrev pub default_docs_paths : List Text
default_docs_paths = codes "docs/" ∷ codes "README.md" ∷ codes "mkdocs.yml" ∷ []

abbrev pub or_default : List Text → List Text → List Text
or_default default [] = default
or_default default (given ∷ rest) = given ∷ rest

abbrev pub is_empty : List Text → Bool
is_empty [] = true
is_empty (path ∷ paths) = false

-- The exit status of main, of the changed paths.
unfoldable pub verdict : List Text → List Text → Option Text → List Text → ℕ
unfolding source_changes touches_docs
verdict source_prefixes docs_paths excluded paths =
    if is_empty (source_changes source_prefixes paths) || touches_docs docs_paths excluded paths
    then 0
    else 1

-- main, of its arguments `--source`, `--docs` and `--exclude-docs`
unfoldable pub main : List Text → List Text → Option Text → Result Text → Result ℕ
unfolding changed_files verdict
main source docs exclude_docs stdout = bind_result (changed_files stdout) λ paths. ok (
    verdict (or_default default_source_prefixes source) (or_default default_docs_paths docs)
      exclude_docs paths)
