-- ===== src/Gallery/Csv.antt =====
-- app/galleries/csv_security.py, and what app/galleries/export.py takes from the csv module: rows in
-- which every cell is quoted, with the quotes in it doubled. A text is a list of code points.
use picture_stage.Base.{
  ℕ, Bool, false, ◌&&◌, ◌||◌, List, [], ◌∷◌, ◌++◌, Bytes, contains, ltb, leb, ◌==◌, if◌then◌else◌,
}

-- `str.isspace`
unfoldable pub is_space : ℕ → Bool
is_space a =
    leb 9 a && leb a 13
    || leb 28 a && leb a 32
    || leb 8192 a && leb a 8202
    || contains a (133 ∷ 160 ∷ 5760 ∷ 8232 ∷ 8233 ∷ 8239 ∷ 8287 ∷ 12288 ∷ [])

-- `str.lstrip`
unfoldable pub lstrip : Bytes → Bytes
lstrip [] = []
lstrip (a ∷ s) = let rest = lstrip s in if is_space a then rest else a ∷ s

-- `=+-@` and their full-width forms.
abbrev pub formula_signs : Bytes
formula_signs = 61 ∷ 43 ∷ 45 ∷ 64 ∷ 65309 ∷ 65291 ∷ 65293 ∷ 65312 ∷ []

abbrev pub starts_formula : Bytes → Bool
starts_formula [] = false
starts_formula (a ∷ s) = contains a formula_signs

abbrev pub starts_control : Bytes → Bool
starts_control [] = false
starts_control (a ∷ s) = ltb a 32

unfoldable pub spreadsheet_text : Bytes → Bytes
unfolding lstrip
spreadsheet_text value =
    if starts_control value || starts_formula (lstrip value) then 39 ∷ value else value

-- The quotes of a cell are doubled.
unfoldable pub double_quotes : Bytes → Bytes
double_quotes [] = []
double_quotes (a ∷ s) = let rest = double_quotes s in if a == 34 then 34 ∷ 34 ∷ rest else a ∷ rest

-- A cell, before what follows it.
unfoldable pub write_cell : Bytes → Bytes → Bytes
write_cell cell rest = 34 ∷ (double_quotes cell ++ 34 ∷ rest)

-- A row of at least one cell, ended by CR and LF.
unfoldable pub write_row : Bytes → List Bytes → Bytes → Bytes
write_row cell [] rest = write_cell cell (13 ∷ 10 ∷ rest)
write_row cell (next ∷ cells) rest = write_cell cell (44 ∷ write_row next cells rest)

unfoldable pub write_rows : List (Bytes × List Bytes) → Bytes
write_rows [] = []
write_rows ((cell, cells) ∷ rows) = write_row cell cells (write_rows rows)
