-- ===== src/Gallery/Export/Safe.antt =====
-- No cell of the owner's CSV file is a formula.
use picture_stage.Base.{
  ℕ, ◌≡◌, refl, inl, inr, some, List, [], ◌∷◌, Bytes, filter, ◌==◌, Bool, false,
}
use mathlib.Core.Path.{subst}
use picture_stage.Base.Results.{ok}
use picture_stage.Models.{Image, Database}
use picture_stage.Selections.{Selections, SelectionState, order_images}
use picture_stage.Gallery.CsvReader.{at_row, read_csv, cells_of}
use picture_stage.Gallery.Export.{ExportFilter, header_row, export_csv}
use picture_stage.Gallery.Csv.{lstrip, is_space}
use picture_stage.Gallery.CsvSafe.{IsHazard, calm_safe}
use picture_stage.Gallery.Export.Rows.{
  IsTextOf, text_true, text_false, IsRowOf, row, AreRowsOf, export_csv_reads,
}

-- Where a cell is among rows.
pub data IsIn (cell : Bytes) : List Bytes → Type 0 where
  here : {cells : List Bytes} → IsIn cell (cell ∷ cells)
  there : {next : Bytes} {cells : List Bytes} → IsIn cell cells → IsIn cell (next ∷ cells)

pub data IsInRows (cell : Bytes) : List (List Bytes) → Type 0 where
  in_row :
      {cells : List Bytes} {rows : List (List Bytes)}
      → IsIn cell cells
      → IsInRows cell (cells ∷ rows)
  below :
      {cells : List Bytes} {rows : List (List Bytes)}
      → IsInRows cell rows
      → IsInRows cell (cells ∷ rows)

lstrip_calm : (a : ℕ) (s : Bytes) → is_space a ≡ false → lstrip (a ∷ s) ≡ a ∷ s
unfolding lstrip
lstrip_calm a s f = rw f refl

text_safe : {b : Bool} {cell : Bytes} → IsTextOf b cell → ¬ IsHazard cell
unfolding lstrip is_space
text_safe text_true = calm_safe _ refl refl
text_safe text_false = calm_safe _ refl refl

header_safe : {cell : Bytes} → IsIn cell (cells_of header_row) → ¬ IsHazard cell
unfolding lstrip is_space
header_safe here = calm_safe _ refl refl
header_safe (there here) = calm_safe _ refl refl
header_safe (there (there here)) = calm_safe _ refl refl
header_safe (there (there (there here))) = calm_safe _ refl refl
header_safe (there (there (there (there beyond)))) = elim beyond [ ]

row_safe :
    {i : Image} {s : SelectionState} {cells : List Bytes} {cell : Bytes}
    → IsRowOf i s cells
    → IsIn cell cells
    → ¬ IsHazard cell
row_safe (row name selected favorited comment) here = name.safe
row_safe (row name selected favorited comment) (there here) = text_safe selected
row_safe (row name selected favorited comment) (there (there here)) = text_safe favorited
row_safe (row name selected favorited comment) (there (there (there here))) = comment.safe
row_safe (row name selected favorited comment) (there (there (there (there beyond)))) =
    elim beyond [ ]

rows_safe :
    (f : ExportFilter) (t : Selections) (images : List Image) (rows : List (List Bytes))
    {cell : Bytes}
    → AreRowsOf f t images rows
    → IsInRows cell rows
    → ¬ IsHazard cell
rows_safe f t [] rows e among = elim (subst (IsInRows _) e among) [ ]
rows_safe f t (i ∷ images) rows (inr (_, later)) among = rows_safe f t images rows later among
rows_safe f t (i ∷ images) rows (inl (_, cells, rest, e, first, later)) among =
    elim (subst (IsInRows _) e among) [
      | in_row cell_in ↦ row_safe first cell_in
      | below cell_below ↦ rows_safe f t images rest later cell_below
    ]

-- In the file that an owner gets, no cell that a reader of quoted cells finds is one that a spreadsheet
-- could take for a formula: none starts with a control character or, behind spaces or not, with
-- `=`, `+`, `-`, `@` or their full-width forms.
pub export_csv_safe :
    (gallery : ℕ) (f : ExportFilter) (user : ℕ) (db : Database) {text cell : Bytes}
    (rows : List (List Bytes))
    → export_csv gallery f user db ≡ ok text
    → read_csv at_row [] [] [] text ≡ some rows
    → IsInRows cell rows
    → ¬ IsHazard cell
export_csv_safe gallery f user db {text} {cell} rows e read among =
    let (_, found, given, are) = export_csv_reads gallery f user db e in
    let same : rows ≡ cells_of header_row ∷ found = cc in
    elim (subst (IsInRows cell) same among) [
      | in_row cell_in ↦ header_safe cell_in
      | below cell_below ↦
          rows_safe f db.current_selections
            (order_images (filter (λ i. i.gallery_id == gallery) db.images)) found are cell_below
    ]
