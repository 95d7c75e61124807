-- ===== src/Gallery/Export/Cells.antt =====
-- What the owner's export says.
use picture_stage.Base.{
  ℕ, ◌≡◌, refl, inl, inr, true, some, List, [], ◌∷◌, Bytes, map, filter, find_where, find_where-any,
  any, Option-cases, ◌==◌,
}
use mathlib.Core.Path.{ap, subst, ◌∙◌}
use picture_stage.Base.Results.{ok, ok_inj}
use picture_stage.Models.{Image, Database}
use picture_stage.Selections.{
  Selections, SelectionState, state_of, order_images, get_current_selections,
}
use picture_stage.Gallery.CsvReader.{at_row, read_csv, cells_of, read_csv-write_rows}
use picture_stage.Gallery.Share.{is_owned}
use picture_stage.Gallery.Export.{
  ExportRow, ExportFilter, export_row, csv_row, header_row, get_materialized_selections,
  is_exported, export_selections, export_csv,
}

-- A row of the export without its file name.
abbrev pub state_of_row : ExportRow → SelectionState
state_of_row r = record {
  image_id = r.image_id;
  selected = r.selected;
  favorited = r.favorited;
  comment = r.comment;
}

pub row_state : (t : Selections) (i : Image) → state_of_row (export_row t i) ≡ state_of t i
row_state t i = elim (Option-cases (t i.id)) [
  | inl unrated ↦ rw unrated refl
  | inr (s, rated) ↦ rw rated refl
]

rows_states :
    (t : Selections) (images : List Image)
    → map state_of_row (map (export_row t) images) ≡ map (state_of t) images
rows_states t [] = refl
rows_states t (i ∷ images) = rw (row_state t i, rows_states t images) refl

-- The owner exports the states that the guests see, image by image in the same order.
pub get_materialized_selections-get_current_selections :
    (gallery : ℕ) (db : Database)
    → map state_of_row (get_materialized_selections gallery db) ≡ get_current_selections gallery db
unfolding get_materialized_selections get_current_selections
get_materialized_selections-get_current_selections gallery db =
    rows_states db.current_selections
      (order_images (filter (λ i. i.gallery_id == gallery) db.images))

cells_of_rows :
    (rows : List ExportRow) → map cells_of (map csv_row rows) ≡ map (λ r. cells_of (csv_row r)) rows
cells_of_rows [] = refl
cells_of_rows (r ∷ rows) = rw (cells_of_rows rows) refl

pub export_csv-rows :
    (gallery : ℕ) (f : ExportFilter) (user : ℕ) (db : Database) {text : Bytes}
    → export_csv gallery f user db ≡ ok text
    → (any (is_owned gallery user) db.galleries ≡ true)
      × (read_csv at_row [] [] [] text
          ≡ some (
              cells_of header_row
              ∷ map
                  (λ r. cells_of (csv_row r))
                  (filter (is_exported f) (get_materialized_selections gallery db))))
unfolding export_csv export_selections
export_csv-rows gallery f user db {text = text} e =
    elim (Option-cases (find_where (is_owned gallery user) db.galleries)) [
      | inl stranger ↦ let refused = rw stranger at e in cc
      | inr (g, owned) ↦
          let rows = filter (is_exported f) (get_materialized_selections gallery db) in
          let given = rw owned at e in
          let same = ok_inj given in
          (
            find_where-any (is_owned gallery user) db.galleries owned,
            subst
                (λ (x : Bytes).
                  read_csv at_row [] [] [] x
                  ≡ some (cells_of header_row ∷ map (λ r. cells_of (csv_row r)) rows))
                same
                (read_csv-write_rows (header_row ∷ map csv_row rows)
                  ∙ ap (λ (cells : List (List Bytes)). some (cells_of header_row ∷ cells))
                      (cells_of_rows rows)),
          )
    ]
