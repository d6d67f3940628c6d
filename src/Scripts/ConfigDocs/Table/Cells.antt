-- ===== src/Scripts/ConfigDocs/Table/Cells.antt =====
-- A row reads back as its cells.
use pyfr_m8_verify.Base.{
  Text, List, Bool, ◌∷◌, has, ℕ, not, ◌++◌, ◌≡◌, if◌then◌else◌, ◌&&◌, [], false, ◌==◌, refl, ◌||◌,
  Bool-cases, join, all, arith, inl, true, ap, codes, map, sym, append_assoc, ==_iff, inr, words,
}
use pyfr_m8_verify.Scripts.ConfigDocs.Table.{
  row, escape_table_cell, variable_row, cells_of, default_cell,
}
use pyfr_m8_verify.Scripts.ConfigDocs.Walk.{ConfigVariable}
use pyfr_m8_verify.Scripts.ConfigDocs.Labels.{quoted}

abbrev keep : Bool → ℕ → Text → Text
keep escaped c w = if escaped && not (c == b'|') then b'\\' ∷ (c ∷ w) else c ∷ w

-- How a reader of Markdown splits a row: at every pipe that has no backslash before it. The first part
-- and the parts behind it, where `escaped` says that a backslash was just read.
abbrev pub read_row : Bool → Text → Text × List Text
read_row escaped [] = ([], [])
read_row escaped (c ∷ s) =
    let opens = not escaped && (b'\\' == c) in
    let r = read_row opens s in
    if opens
    then r
    else if not escaped && (c == b'|')
    then ([], r.0 ∷ r.1)
    else (keep escaped c r.0, r.1)

abbrev pub padded : Text → Text
padded cell = b' ' ∷ (cell ++ (b' ' ∷ []))

or_false : (a b : Bool) → (a || b) ≡ false → (a ≡ false) × (b ≡ false)
or_false a b h = ground arith

read_row-escape :
    (cell s : Text)
    → has b'\\' cell ≡ false
    → read_row false (escape_table_cell cell ++ s)
      ≡ (cell ++ (read_row false s).0, (read_row false s).1)
unfolding escape_table_cell has
read_row-escape [] s h = refl
read_row-escape (c ∷ cell) s h =
    let free = or_false (b'\\' == c) (has b'\\' cell) h in
    let rest = read_row-escape cell s free.1 in
    elim (Bool-cases (c == b'|')) [
      | inl e ↦
          rw (e, rest)
            (ap (λ d. (d ∷ (cell ++ (read_row false s).0), (read_row false s).1))
              (sym ((==_iff c b'|').0 e)))
      | inr e ↦ rw (e, free.0, e, rest) refl
    ]

first_free :
    (cell : Text) (cells : List Text)
    → all (λ t. not (has b'\\' t)) (cell ∷ cells) ≡ true
    → (has b'\\' cell ≡ false) × (all (λ t. not (has b'\\' t)) cells ≡ true)
first_free cell cells h = ground arith

-- The cells with the end of their row behind them.
read_row-cells :
    (cell : Text) (cells : List Text)
    → all (λ t. not (has b'\\' t)) (cell ∷ cells) ≡ true
    → read_row false (join (codes " | ") (map escape_table_cell (cell ∷ cells)) ++ codes " |")
      ≡ (cell ++ (b' ' ∷ []), map padded cells ++ ([] ∷ []))
unfolding join
read_row-cells cell [] h = rw (read_row-escape cell (codes " |") (first_free cell [] h).0) refl
read_row-cells cell (d ∷ cells) h =
    let free = first_free cell (d ∷ cells) h in
    let rest = join (codes " | ") (map escape_table_cell (d ∷ cells)) in
    rw
      (
        append_assoc (escape_table_cell cell) (codes " | " ++ rest) (codes " |"),
        read_row-escape cell (codes " | " ++ (rest ++ codes " |")) free.0,
        read_row-cells d cells free.1,
      )
      refl

row-reads :
    (cell : Text) (cells : List Text)
    → all (λ t. not (has b'\\' t)) (cell ∷ cells) ≡ true
    → read_row false (row (cell ∷ cells)) ≡ ([], map padded (cell ∷ cells) ++ ([] ∷ []))
unfolding row
row-reads cell cells h = rw (read_row-cells cell cells h) refl

-- Where no cell holds a backslash, the row of a variable reads back as its four cells, each between two
-- spaces, with nothing before the first pipe and behind the last, also where the cells hold pipes.
pub variable_row-reads :
    (v : ConfigVariable)
    → all (λ t. not (has b'\\' t)) (cells_of v) ≡ true
    → read_row false (variable_row v) ≡ ([], map padded (cells_of v) ++ ([] ∷ []))
unfolding variable_row cells_of
variable_row-reads v h =
    row-reads (quoted v.name)
      (v.type_label ∷ default_cell v ∷ join (b' ' ∷ []) (words v.description) ∷ []) h
