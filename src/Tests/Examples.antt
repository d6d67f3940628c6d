-- ===== src/Tests/Examples.antt =====
-- scripts/check_doc_examples.py and check_docs_freshness.py, on small pages.
use pyfr_m8_verify.Base.{
  Text, codes, ◌∷◌, some, starts_with, [], Option, partition, ◌≡◌, ends_with, refl, contains,
  text_eq,
}
use pyfr_m8_verify.Errors.{raised, Result, value_error, type_error}
use pyfr_m8_verify.Scripts.DocExamples.{
  File, find_examples, blocks_from, block_at, block_body, split_newlines,
}
use pyfr_m8_verify.Scripts.DocsFreshness.{
  Page, stale_pages, uncovered_changes, parse_frontmatter, Frontmatter, is_stale, changes_under,
  at_time, on_day, any_beneath, is_beneath,
}

-- The second block is not marked, the third not closed.
abbrev page : File
page = record {
  path = codes "docs/a.md";
  parts = codes "docs" ∷ codes "a.md" ∷ [];
  text =
      codes
        "# A\n<!-- exec -->\n```bash\ncurl x\n\n```\n```bash\nls\n```\n<!-- exec -->\n```shell\nrm";
}

find_examples_test :
    find_examples (page ∷ [])
    ≡ record { path = codes "docs/a.md"; line = 2; body = codes "curl x\n\n" } ∷ []
unfolding find_examples blocks_from block_at block_body split_newlines contains text_eq starts_with
find_examples_test = refl

abbrev unfit : Page
unfit = record { path = codes "docs/b.md"; last_reviewed = some (at_time 1); covers = [] }

-- A datetime ends the check.
stale_pages_test : stale_pages 739000 (unfit ∷ []) ≡ raised type_error
unfolding stale_pages is_stale
stale_pages_test = refl

abbrev covering : Page
covering = record {
  path = codes "docs/c.md";
  last_reviewed = some (on_day 738000);
  covers = codes "src/api/" ∷ codes "src/main.py" ∷ [];
}

uncovered_changes_test :
    uncovered_changes (codes "src/api/errors.py" ∷ []) (covering ∷ [])
    ≡ (codes "docs/c.md", codes "src/api/") ∷ []
unfolding uncovered_changes changes_under any_beneath is_beneath ends_with starts_with contains
    text_eq
uncovered_changes_test = refl

-- An empty block is not seen to end: the prose behind it is read as YAML.
abbrev refuse : Text → Result (Option Frontmatter)
refuse block = raised value_error

empty_block_test :
    parse_frontmatter refuse (codes "---\n---\nTitle: a: b\n---\n") ≡ raised value_error
unfolding parse_frontmatter starts_with partition
empty_block_test = refl
