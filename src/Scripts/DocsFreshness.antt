-- ===== src/Scripts/DocsFreshness.antt =====
-- scripts/check_docs_freshness.py: the warnings about pages. A date is the number of its day
-- (`toordinal`); `safe_load` is yaml.safe_load.
use pyfr_m8_verify.Base.{
  ends_with, Text, List, Option, Bool, codes, starts_with, partition, none, some, true, false, ℕ,
  [], ◌∷◌, if◌then◌else◌, text_eq, contains, drop, ltb, ◌||◌, ◌++◌, map, ◌+◌, ◌&&◌,
}
use pyfr_m8_verify.Errors.{Result, ok, raised, type_error}
use pyfr_m8_verify.Errors.Exec.{bind_result}
use pyfr_m8_verify.Scripts.DocsUpdated.{starts_with_any}

-- What `last_reviewed` holds where it is a date: a datetime is one too.
pub data Reviewed : Type 0 where
  on_day : ℕ → Reviewed
  at_time : ℕ → Reviewed

pub record Page : Type 0 where
  pub path : Text
  pub last_reviewed : Option Reviewed
  pub covers : List Text

-- The two entries that are read of a page's mapping: the first as it is if it is a date.
pub record Frontmatter : Type 0 where
  pub last_reviewed : Option Reviewed
  pub covers : List Text

abbrev pub empty_frontmatter : Frontmatter
empty_frontmatter = record { last_reviewed = none; covers = [] }

abbrev pub fence : Text
fence = codes "---\n"

abbrev pub closing_fence : Text
closing_fence = codes "\n---"

-- EXCLUDED_PREFIXES
abbrev pub excluded_prefixes : List Text
excluded_prefixes = codes "docs/adr/" ∷ []

-- MAX_REVIEW_AGE_DAYS
abbrev pub max_review_age_days : ℕ
max_review_age_days = 180

module _ (safe_load : Text → Result (Option Frontmatter)) where
  abbrev pub or_no_mapping : Option Frontmatter → Frontmatter
  or_no_mapping none = empty_frontmatter
  or_no_mapping (some meta) = meta

  abbrev pub load_block : Option (Text × Text) → Result Frontmatter
  load_block none = ok empty_frontmatter
  load_block (some (block, rest)) =
      bind_result (safe_load block) λ loaded. ok (or_no_mapping loaded)

  -- parse_frontmatter
  unfoldable pub parse_frontmatter : Text → Result Frontmatter
  unfolding starts_with partition
  parse_frontmatter text =
      if starts_with fence text
      then load_block (partition closing_fence (drop 4 text))
      else ok empty_frontmatter

  -- load_pages, of the files under the root in their order, with their text
  unfoldable pub load_pages : List Text → List (Text × Text) → Result (List Page)
  unfolding parse_frontmatter starts_with_any
  load_pages excluded [] = ok []
  load_pages excluded ((path, text) ∷ files) =
      let rest = load_pages excluded files in
      if starts_with_any excluded path
      then rest
      else bind_result (parse_frontmatter text) λ meta. bind_result rest λ pages.
        ok
          (record { path = path; last_reviewed = meta.last_reviewed; covers = meta.covers } ∷ pages)

-- page.last_reviewed < cutoff, which a datetime does not compare to. `today` is after the year 1.
unfoldable pub is_stale : ℕ → Option Reviewed → Result Bool
is_stale today none = ok false
is_stale today (some (on_day day)) = ok (ltb (day + max_review_age_days) today)
is_stale today (some (at_time day)) = raised type_error

unfoldable pub stale_pages : ℕ → List Page → Result (List Page)
unfolding is_stale
stale_pages today [] = ok []
stale_pages today (page ∷ pages) =
    let rest = stale_pages today pages in
    bind_result (is_stale today page.last_reviewed)
      λ stale. bind_result rest λ others. ok (if stale then page ∷ others else others)

abbrev pub is_undeclared : Option Reviewed → Bool
is_undeclared none = true
is_undeclared (some reviewed) = false

unfoldable pub undeclared_pages : List Page → List Page
undeclared_pages [] = []
undeclared_pages (page ∷ pages) =
    let rest = undeclared_pages pages in
    if is_undeclared page.last_reviewed then page ∷ rest else rest

-- path == covered, or a path beneath it
unfoldable pub is_beneath : Text → Text → Bool
unfolding ends_with starts_with text_eq
is_beneath covered path =
    text_eq path covered || (ends_with covered (b'/' ∷ []) && starts_with covered path)

unfoldable pub any_beneath : Text → List Text → Bool
unfolding is_beneath
any_beneath covered [] = false
any_beneath covered (path ∷ changed) = is_beneath covered path || any_beneath covered changed

unfoldable pub changes_under : Text → List Text → List Text → List (Text × Text)
unfolding any_beneath
changes_under page [] changed = []
changes_under page (covered ∷ covers) changed =
    let rest = changes_under page covers changed in
    if any_beneath covered changed then (page, covered) ∷ rest else rest

unfoldable pub uncovered_changes : List Text → List Page → List (Text × Text)
unfolding changes_under contains
uncovered_changes changed [] = []
uncovered_changes changed (page ∷ pages) =
    let rest = uncovered_changes changed pages in
    if contains page.path changed then rest else changes_under page.path page.covers changed ++ rest

-- The warnings of main, by their page and kind.
pub data Warning : Type 0 where
  unreviewed : (path : Text) → Option Reviewed → Warning
  undeclared : (path : Text) → Warning
  uncovered : (path : Text) → (covered : Text) → Warning

-- main, with the pages and the changed paths
unfoldable pub main : ℕ → List Page → List Text → Result (List Warning)
unfolding stale_pages undeclared_pages uncovered_changes
main today pages changed = bind_result (stale_pages today pages) λ stale. ok (
    map (λ p. unreviewed p.path p.last_reviewed) stale
    ++ (map (λ p. undeclared p.path) (undeclared_pages pages)
        ++ map (λ f. uncovered f.0 f.1) (uncovered_changes changed pages)))
