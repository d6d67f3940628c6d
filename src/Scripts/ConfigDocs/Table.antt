-- ===== src/Scripts/ConfigDocs/Table.antt =====
-- The published table.
pub mod Cells
use pyfr_m8_verify.Base.{
  Text, join, words, List, Option, Bool, if◌then◌else◌, ◌∷◌, codes, none, some, text_eq, ◌++◌, ◌==◌,
  [], map, ℕ, ◌||◌, starts_with, true, false,
}
use pyfr_m8_verify.Scripts.ConfigDocs.Walk.{ConfigVariable, ConfigGroup, delimiter}
use pyfr_m8_verify.Scripts.ConfigDocs.Labels.{quoted}

abbrev pub last_of : ℕ → Bool → Option Text → Option Text
last_of c b (some t) = some (c ∷ t)
last_of c true none = some []
last_of c false none = none

-- name.rsplit("__", 1)[0]: all before the last delimiter.
unfoldable pub before_last : Text → Text → Option Text
before_last sep [] = none
before_last sep (c ∷ s) = last_of c (starts_with sep (c ∷ s)) (before_last sep s)

abbrev pub or_whole : Text → Option Text → Text
or_whole t none = t
or_whole t (some u) = u

abbrev pub is_unset : Text → Bool
is_unset t = text_eq t [] || text_eq t (codes "unset")

-- _default_cell
unfoldable pub default_cell : ConfigVariable → Text
unfolding before_last
default_cell v =
    if v.required_in_group
    then codes "unset, required once any `"
      ++ (or_whole v.name (before_last delimiter v.name) ++ (delimiter ++ codes "*` is set"))
    else if is_unset v.default_label
    then codes "unset"
    else quoted v.default_label

-- _escape_table_cell
unfoldable pub escape_table_cell : Text → Text
escape_table_cell [] = []
escape_table_cell (c ∷ s) =
    let rest = escape_table_cell s in if c == b'|' then b'\\' ∷ (b'|' ∷ rest) else c ∷ rest

-- A row of its cells.
unfoldable pub row : List Text → Text
unfolding escape_table_cell join
row cells = codes "| " ++ (join (codes " | ") (map escape_table_cell cells) ++ codes " |")

-- The four cells of a variable.
unfoldable pub cells_of : ConfigVariable → List Text
unfolding default_cell words join
cells_of v =
    quoted v.name ∷ v.type_label ∷ default_cell v ∷ join (b' ' ∷ []) (words v.description) ∷ []

unfoldable pub variable_row : ConfigVariable → Text
unfolding row cells_of
variable_row v = row (cells_of v)

unfoldable pub group_rows : List ConfigGroup → List Text
unfolding variable_row
group_rows [] = []
group_rows (g ∷ gs) = map variable_row g.variables ++ group_rows gs

-- render_markdown_table, of the groups of walk_settings
unfoldable pub render_markdown_table : List ConfigGroup → Text
unfolding group_rows
render_markdown_table groups = join (10 ∷ []) (
    codes "| Variable | Type | Default | Meaning |"
    ∷ codes "| --- | --- | --- | --- |"
    ∷ group_rows groups)
