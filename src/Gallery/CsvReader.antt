-- ===== src/Gallery/CsvReader.antt =====
-- A reader of quoted rows, and what it reads of the rows that app/galleries/export.py writes.
use picture_stage.Base.{
  ◌≡◌, refl, inl, inr, Option, none, some, List, [], ◌∷◌, ◌++◌, Bytes, arith, Bool-cases, ◌==◌,
  if◌then◌else◌, map,
}
use mathlib.Core.Path.{ap, sym, ◌∙◌}
use picture_stage.Gallery.Csv.{double_quotes, write_cell, write_row, write_rows}

-- Where a reader stands: before a row, before a cell, in a quoted cell, behind a quote in one, or
-- behind the CR of a row. It carries the cell and the cells of the row, and the rows before it.
pub data Mode : Type 0 where
  at_row at_cell in_quotes at_quote at_end : Mode

-- The next mode at a character; none where the text is not of this form.
abbrev pub snoc {ℓ} : {A : Type ℓ} → List A → A → List A
snoc xs x = xs ++ x ∷ []

unfoldable pub read_csv :
    Mode → Bytes → List Bytes → List (List Bytes) → Bytes → Option (List (List Bytes))
read_csv at_row cell row rows [] = some rows
read_csv _ cell row rows [] = none
read_csv at_row cell row rows (a ∷ s) =
    let rest = read_csv in_quotes [] [] rows s in if a == 34 then rest else none
read_csv at_cell cell row rows (a ∷ s) =
    let rest = read_csv in_quotes [] row rows s in if a == 34 then rest else none
read_csv in_quotes cell row rows (a ∷ s) =
    let ends = read_csv at_quote cell row rows s in
    let goes = read_csv in_quotes (snoc cell a) row rows s in if a == 34 then ends else goes
read_csv at_quote cell row rows (a ∷ s) =
    let again = read_csv in_quotes (snoc cell 34) row rows s in
    let next = read_csv at_cell [] (snoc row cell) rows s in
    let last = read_csv at_end [] (snoc row cell) rows s in
    if a == 34 then again else if a == 44 then next else if a == 13 then last else none
read_csv at_end cell row rows (a ∷ s) =
    let rest = read_csv at_row [] [] (snoc rows row) s in if a == 10 then rest else none

append_nil : {A : Type 0} (xs : List A) → xs ++ [] ≡ xs
append_nil [] = refl
append_nil (x ∷ xs) = ap (λ (s : List _). x ∷ s) (append_nil xs)

append_assoc : {A : Type 0} (xs ys zs : List A) → xs ++ ys ++ zs ≡ xs ++ (ys ++ zs)
append_assoc [] ys zs = refl
append_assoc (x ∷ xs) ys zs = ap (λ (s : List _). x ∷ s) (append_assoc xs ys zs)

-- A quoted cell is read up to its closing quote.
read_quoted :
    (s cell : Bytes) (row : List Bytes) (rows : List (List Bytes)) (rest : Bytes)
    → read_csv in_quotes cell row rows (double_quotes s ++ 34 ∷ rest)
      ≡ read_csv at_quote (cell ++ s) row rows rest
unfolding double_quotes read_csv
read_quoted [] cell row rows rest = rw (append_nil cell) refl
read_quoted (a ∷ s) cell row rows rest =
    let joined = append_assoc cell (a ∷ []) s in
    let at : Bytes → Option (List (List Bytes)) = λ c. read_csv at_quote c row rows rest in
    elim (Bool-cases (a == 34)) [
      | inl t ↦
          let quote : a ≡ 34 = ground (arith, t) in
          let later = read_quoted s (snoc cell 34) row rows rest in
          rw t (later ∙ ap at (append_assoc cell (34 ∷ []) s ∙ ap (λ x. cell ++ x ∷ s) (sym quote)))
      | inr n ↦
          let later = read_quoted s (snoc cell a) row rows rest in rw (n, n) (later ∙ ap at joined)
    ]

abbrev row_tail : List Bytes → Bytes → Bytes
row_tail [] rest = 13 ∷ 10 ∷ rest
row_tail (next ∷ cells) rest = 44 ∷ write_row next cells rest

write_row_tail :
    (cell : Bytes) (cells : List Bytes) (rest : Bytes)
    → write_row cell cells rest ≡ 34 ∷ (double_quotes cell ++ 34 ∷ row_tail cells rest)
unfolding write_row write_cell
write_row_tail cell [] rest = refl
write_row_tail cell (next ∷ cells) rest = refl

-- The cells of a row, each behind the ones before it.
read_row :
    (cell : Bytes) (cells row : List Bytes) (rows : List (List Bytes)) (rest : Bytes)
    → read_csv in_quotes [] row rows (double_quotes cell ++ 34 ∷ row_tail cells rest)
      ≡ read_csv at_row [] [] (snoc rows (row ++ cell ∷ cells)) rest
unfolding read_csv
read_row cell [] row rows rest = read_quoted cell [] row rows (13 ∷ 10 ∷ rest)
read_row cell (next ∷ cells) row rows rest =
    read_quoted cell [] row rows (44 ∷ write_row next cells rest)
    ∙ ap (read_csv at_cell [] (snoc row cell) rows) (write_row_tail next cells rest)
    ∙ read_row next cells (snoc row cell) rows rest
    ∙ ap (λ (r : List Bytes). read_csv at_row [] [] (snoc rows r) rest)
        (append_assoc row (cell ∷ []) (next ∷ cells))

abbrev pub cells_of : Bytes × List Bytes → List Bytes
cells_of (cell, cells) = cell ∷ cells

read_all :
    (rows : List (Bytes × List Bytes)) (before : List (List Bytes))
    → read_csv at_row [] [] before (write_rows rows) ≡ some (before ++ map cells_of rows)
unfolding read_csv write_rows
read_all [] before = ap some (sym (append_nil before))
read_all ((cell, cells) ∷ rows) before =
    ap (read_csv at_row [] [] before) (write_row_tail cell cells (write_rows rows))
    ∙ read_row cell cells [] before (write_rows rows)
    ∙ read_all rows (snoc before (cell ∷ cells))
    ∙ ap some (append_assoc before ((cell ∷ cells) ∷ []) (map cells_of rows))

-- A reader of quoted rows gets back exactly the cells that were written, whatever quotes, commas and
-- line ends they hold.
pub read_csv-write_rows :
    (rows : List (Bytes × List Bytes))
    → read_csv at_row [] [] [] (write_rows rows) ≡ some (map cells_of rows)
read_csv-write_rows rows = read_all rows []
