-- ===== src/Tests/ConfigDocs.antt =====
-- scripts/generate_config_docs.py, on a small model.
use pyfr_m8_verify.Base.{
  Text, codes, words, ◌∷◌, All, [], partition, if◌then◌else◌, true, starts_with, ◌≡◌, sub_from, leb,
  subst, refl, ◌&&◌, sym, ◌-◌, some, none, split_words, join, text_eq, is_whitespace, stripped,
  lstrip, List,
}
use pyfr_m8_verify.Json.{Json, arr}
use pyfr_m8_verify.Errors.{ok}
use pyfr_m8_verify.Scripts.ConfigDocs.Labels.{
  json_default, FieldInfo, render_type, scalar, annotation_label, int_, unwrap_optional, value,
  constraint_label, shown_as, bounds_of, bound, ge, label_of, le, label_or, render_default,
  render_value, is_secret, texts,
}
use pyfr_m8_verify.Scripts.ConfigDocs.Labels.Sorted.{
  json_default_same_text, IsReordered, swapped, IsSorted,
}
use pyfr_m8_verify.Scripts.ConfigDocs.Walk.{
  Model, walk_model, walk_settings, model, plain, nested, no_fields, variables_of, variable_of,
  variable_name,
}
use pyfr_m8_verify.Scripts.ConfigDocs.Plain.{
  wrap_comment, plain_text, markdown_link, markdown_emphasis, wrap,
}
use pyfr_m8_verify.Scripts.ConfigDocs.EnvExample.{section}
use pyfr_m8_verify.Scripts.ConfigDocs.EnvExample.Commented.{walk_model-IsCommented, IsComment}
use pyfr_m8_verify.Scripts.ConfigDocs.Table.{
  render_markdown_table, group_rows, variable_row, row, cells_of, default_cell, escape_table_cell,
  before_last,
}
use pyfr_m8_verify.Scripts.ConfigDocs.Document.{write_outputs, check_outputs}
use pyfr_m8_verify.Scripts.ConfigDocs.Document.Idempotent.{
  write_outputs-current, document, inside, IsMarkedAt,
}

abbrev prose : Text
prose =
    codes
      "How long an answer of the cache is kept, in seconds, before the next read goes to the database again."

wrapped_test :
    wrap_comment prose
    ≡ codes "# How long an answer of the cache is kept, in seconds, before the next read"
      ∷ codes "# goes to the database again."
      ∷ []
unfolding wrap_comment wrap words split_words is_whitespace text_eq
wrapped_test = refl

abbrev dumps : Json → Text
dumps j = codes "[]"

json_default_same_text_example :
    (ts : List Text) × IsReordered ts (codes "b" ∷ codes "a" ∷ [])
    × IsSorted ts
    × (json_default dumps (codes "b" ∷ codes "a" ∷ []) ≡ dumps (arr (texts ts)))
    × (json_default dumps (codes "a" ∷ codes "b" ∷ []) ≡ dumps (arr (texts ts)))
json_default_same_text_example =
    json_default_same_text dumps (codes "b" ∷ codes "a" ∷ []) (codes "a" ∷ codes "b" ∷ [])
      (swapped (codes "b") (codes "a") [])

plain_text_test :
    plain_text (codes "See [the **guide**](x.md) for `PORT`.") ≡ codes "See the guide for PORT."
unfolding plain_text markdown_link markdown_emphasis sub_from partition starts_with
plain_text_test = refl

abbrev upper : Text → Text
upper [] = []
upper (c ∷ s) = (if leb b'a' c && leb c b'z' then c - 32 else c) ∷ upper s

abbrev ttl : FieldInfo
ttl = record {
  annotation = scalar int_;
  default = value (shown_as (codes "60"));
  description = some (codes "Seconds | minutes.");
  metadata = ge (codes "1") ∷ le (codes "90") ∷ [];
  type_label = none;
}

abbrev cache : Model
cache = model (codes "The cache.") (plain (codes "ttl") ttl no_fields)

render_type_test : render_type ttl ≡ codes "integer, 1–90"
unfolding render_type annotation_label unwrap_optional constraint_label bounds_of bound label_of
    label_or
render_type_test = refl

walk_model-IsCommented_example :
    All (λ g. All IsComment (section g)) (walk_model dumps upper (codes "cache" ∷ []) true cache)
walk_model-IsCommented_example = walk_model-IsCommented dumps upper (codes "cache" ∷ []) cache

abbrev settings : Model
settings = model [] (nested (codes "cache") true cache no_fields)

abbrev table : Text
table =
    codes
      "| Variable | Type | Default | Meaning |\n| --- | --- | --- | --- |\n| `APP_CACHE__TTL` | integer, 1–90 | `60` | Seconds \\| minutes. |"

table_test : render_markdown_table (walk_settings dumps upper settings) ≡ table
unfolding render_markdown_table walk_settings walk_model variables_of variable_of variable_name
    render_type annotation_label unwrap_optional constraint_label bounds_of bound label_of label_or
    render_default render_value is_secret group_rows variable_row row cells_of default_cell words
    split_words join escape_table_cell before_last starts_with text_eq is_whitespace stripped lstrip
table_test = refl

abbrev front : Text
front = codes "# Configuration\n\n"

marked_before : IsMarkedAt front (codes "old")
unfolding partition starts_with
marked_before = (refl, refl)

marked_after : IsMarkedAt front (inside table)
unfolding partition starts_with
marked_after = (refl, refl)

write_outputs-current_example :
    (files : Text × Text) × (write_outputs settings dumps upper
        ([], document front (codes "old") (codes "\n\nMore.\n"))
      ≡ ok files)
    × (files.1
        ≡ document front
            (inside (render_markdown_table (walk_settings dumps upper settings)))
            (codes "\n\nMore.\n"))
    × (check_outputs settings dumps upper files ≡ ok [])
write_outputs-current_example =
    write_outputs-current settings dumps upper [] front (codes "old") (codes "\n\nMore.\n")
      marked_before (subst (λ t. IsMarkedAt front (inside t)) (sym table_test) marked_after)
