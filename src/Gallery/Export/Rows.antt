-- ===== src/Gallery/Export/Rows.antt =====
-- What the rows of the owner's CSV file say of each image.
use picture_stage.Base.{
  ℕ, ◌≡◌, refl, inl, inr, true, some, List, [], ◌∷◌, Bytes, map, filter, any, ◌==◌, ◌⊎◌, Bool,
  false, ◌||◌, Bool-cases,
}
use mathlib.Core.Path.{ap, sym, subst, ◌∙◌}
use picture_stage.Base.Results.{ok}
use picture_stage.Models.{Image, Database}
use picture_stage.Selections.{Selections, SelectionState, state_of, order_images}
use picture_stage.Gallery.CsvReader.{at_row, read_csv, cells_of}
use picture_stage.Gallery.Share.{is_owned}
use picture_stage.Gallery.Export.{
  ExportFilter, export_row, csv_row, header_row, get_materialized_selections, is_exported,
  export_csv, all_rows, selected_rows, favorited_rows, marked_rows, bool_text, text_or_empty,
}
use picture_stage.Gallery.CsvSafe.{IsCellOf, spreadsheet_text-IsCellOf}
use picture_stage.Gallery.Export.Cells.{row_state, export_csv-rows}

-- Which images a filter is for, by their state.
abbrev pub wants : ExportFilter → SelectionState → Bool
wants all_rows s = true
wants selected_rows s = s.selected
wants favorited_rows s = s.favorited
wants marked_rows s = s.selected || s.favorited

-- The text of a state: `True` or `False`.
pub data IsTextOf : Bool → Bytes → Type 0 where
  text_true : IsTextOf true (84 ∷ 114 ∷ 117 ∷ 101 ∷ [])
  text_false : IsTextOf false (70 ∷ 97 ∷ 108 ∷ 115 ∷ 101 ∷ [])

-- The cells of an image: its name, whether it is selected and favorited, and its comment.
pub data IsRowOf (i : Image) (s : SelectionState) : List Bytes → Type 0 where
  row :
      {name selected favorited comment : Bytes}
      → IsCellOf i.filename.text name
      → IsTextOf s.selected selected
      → IsTextOf s.favorited favorited
      → IsCellOf (text_or_empty s.comment) comment
      → IsRowOf i s (name ∷ selected ∷ favorited ∷ comment ∷ [])

-- The rows of the images in turn, each with the state that guests see of it, but for those that the
-- filter is not for.
abbrev pub AreRowsOf : ExportFilter → Selections → List Image → List (List Bytes) → Type 0
AreRowsOf f t [] rows = rows ≡ []
AreRowsOf f t (i ∷ images) rows =
    ((wants f (state_of t i) ≡ true)
      × (cells : List Bytes) × (rest : List (List Bytes)) × (rows ≡ cells ∷ rest)
      × IsRowOf i (state_of t i) cells
      × AreRowsOf f t images rest)
    ⊎ ((wants f (state_of t i) ≡ false) × AreRowsOf f t images rows)

bool_text-IsTextOf : (b : Bool) → IsTextOf b (bool_text b)
bool_text-IsTextOf true = text_true
bool_text-IsTextOf false = text_false

wants_row :
    (f : ExportFilter) (t : Selections) (i : Image)
    → is_exported f (export_row t i) ≡ wants f (state_of t i)
wants_row all_rows t i = refl
wants_row selected_rows t i = ap (λ (s : SelectionState). s.selected) (row_state t i)
wants_row favorited_rows t i = ap (λ (s : SelectionState). s.favorited) (row_state t i)
wants_row marked_rows t i = ap (λ (s : SelectionState). s.selected || s.favorited) (row_state t i)

csv_row-IsRowOf :
    (t : Selections) (i : Image) → IsRowOf i (state_of t i) (cells_of (csv_row (export_row t i)))
csv_row-IsRowOf t i =
    subst (λ (s : SelectionState). IsRowOf i s (cells_of (csv_row (export_row t i))))
      (row_state t i)
      (row (spreadsheet_text-IsCellOf i.filename.text)
        (bool_text-IsTextOf (export_row t i).selected)
        (bool_text-IsTextOf (export_row t i).favorited)
        (spreadsheet_text-IsCellOf (text_or_empty (export_row t i).comment)))

rows-AreRowsOf :
    (f : ExportFilter) (t : Selections) (images : List Image)
    → AreRowsOf f t images
        (map (λ r. cells_of (csv_row r)) (filter (is_exported f) (map (export_row t) images)))
rows-AreRowsOf f t [] = refl
rows-AreRowsOf f t (i ∷ images) = elim (Bool-cases (is_exported f (export_row t i))) [
  | inl admitted ↦ rw admitted (
      inl (
        sym (wants_row f t i) ∙ admitted,
        cells_of (csv_row (export_row t i)),
        _,
        refl,
        csv_row-IsRowOf t i,
        rows-AreRowsOf f t images,
      ))
  | inr other ↦ rw other (inr (sym (wants_row f t i) ∙ other, rows-AreRowsOf f t images))
]

-- Whoever owns the gallery, and only they, get a file in which a reader of quoted cells finds the
-- header and then, in the order of the gallery, one row for each image that the filter is for: its
-- name, whether guests see it selected and favorited, and its comment. Name and comment stand as they
-- are, or, where a spreadsheet could take them for a formula or a control character, behind an apostrophe.
pub export_csv_reads :
    (gallery : ℕ) (f : ExportFilter) (user : ℕ) (db : Database) {text : Bytes}
    → export_csv gallery f user db ≡ ok text
    → (any (is_owned gallery user) db.galleries ≡ true)
      × (rows : List (List Bytes)) × (read_csv at_row [] [] [] text
          ≡ some (cells_of header_row ∷ rows))
      × AreRowsOf f db.current_selections
          (order_images (filter (λ i. i.gallery_id == gallery) db.images))
          rows
unfolding get_materialized_selections
export_csv_reads gallery f user db e =
    let (owned, read) = export_csv-rows gallery f user db e in
    (
      owned,
      map (λ r. cells_of (csv_row r))
          (filter (is_exported f) (get_materialized_selections gallery db)),
      read,
      rows-AreRowsOf f db.current_selections
          (order_images (filter (λ i. i.gallery_id == gallery) db.images)),
    )
