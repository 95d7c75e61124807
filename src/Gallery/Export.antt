-- ===== src/Gallery/Export.antt =====
-- app/galleries/export.py: the owner's export of the selections as CSV and as a list of file names.
-- The JSON document and the name of the downloaded file are left out.
pub mod Cells
pub mod Rows
pub mod Safe
mod Tests
use picture_stage.Base.{
  ℕ, ◌≡◌, Bool, true, false, ◌&&◌, ◌||◌, Option, none, some, List, [], ◌∷◌, ◌++◌, Bytes, map,
  filter, find_where, ◌==◌, if◌then◌else◌,
}
use picture_stage.Base.Results.{Result, ok, err, or_raise, ◌>>=◌, ◌>>◌}
use picture_stage.Models.{Gallery, Image, CurrentSelection, Database}
use picture_stage.Selections.{Selections, order_images}
use picture_stage.Gallery.Share.{is_owned}
use picture_stage.Gallery.Csv.{spreadsheet_text, write_rows}

pub record ExportRow : Type 0 where
  pub image_id : ℕ
  pub filename : Bytes
  pub selected : Bool
  pub favorited : Bool
  pub comment : Option Bytes

-- `bool(row.selected)` of the outer join.
abbrev pub bool_of : (CurrentSelection → Bool) → Option CurrentSelection → Bool
bool_of column none = false
bool_of column (some s) = column s

abbrev pub comment_of : Option CurrentSelection → Option Bytes
comment_of none = none
comment_of (some s) = s.comment.value

abbrev pub export_row : Selections → Image → ExportRow
export_row t i = record {
  image_id = i.id;
  filename = i.filename.text;
  selected = bool_of (λ s. s.selected.value) (t i.id);
  favorited = bool_of (λ s. s.favorited.value) (t i.id);
  comment = comment_of (t i.id);
}

-- `_get_materialized_selections`
unfoldable pub get_materialized_selections : ℕ → Database → List ExportRow
get_materialized_selections gallery db =
    map (export_row db.current_selections)
      (order_images (filter (λ i. i.gallery_id == gallery) db.images))

pub data ExportFilter : Type 0 where
  all_rows selected_rows favorited_rows marked_rows : ExportFilter

abbrev pub is_exported : ExportFilter → ExportRow → Bool
is_exported all_rows r = true
is_exported selected_rows r = r.selected
is_exported favorited_rows r = r.favorited
is_exported marked_rows r = r.selected || r.favorited

-- The texts `True` and `False`.
abbrev pub bool_text : Bool → Bytes
bool_text true = 84 ∷ 114 ∷ 117 ∷ 101 ∷ []
bool_text false = 70 ∷ 97 ∷ 108 ∷ 115 ∷ 101 ∷ []

abbrev pub text_or_empty : Option Bytes → Bytes
text_or_empty none = []
text_or_empty (some text) = text

-- The texts `filename`, `selected`, `favorited` and `comment`.
abbrev pub header_row : Bytes × List Bytes
header_row = (
  102 ∷ 105 ∷ 108 ∷ 101 ∷ 110 ∷ 97 ∷ 109 ∷ 101 ∷ [],
  (115 ∷ 101 ∷ 108 ∷ 101 ∷ 99 ∷ 116 ∷ 101 ∷ 100 ∷ [])
      ∷ (102 ∷ 97 ∷ 118 ∷ 111 ∷ 114 ∷ 105 ∷ 116 ∷ 101 ∷ 100 ∷ [])
      ∷ (99 ∷ 111 ∷ 109 ∷ 109 ∷ 101 ∷ 110 ∷ 116 ∷ [])
      ∷ [],
)

abbrev pub csv_row : ExportRow → Bytes × List Bytes
csv_row r = (
  spreadsheet_text r.filename,
  bool_text r.selected ∷ bool_text r.favorited ∷ spreadsheet_text (text_or_empty r.comment) ∷ [],
)

pub data Error : Type 0 where
  gallery_not_found : Error

-- The rows that `export_selections` writes, for the owner.
unfoldable pub export_selections : ℕ → ExportFilter → ℕ → Database → Result Error (List ExportRow)
export_selections gallery export_filter user db = do
  or_raise (find_where (is_owned gallery user) db.galleries) gallery_not_found
  ok (filter (is_exported export_filter) (get_materialized_selections gallery db))

unfoldable pub export_csv : ℕ → ExportFilter → ℕ → Database → Result Error Bytes
export_csv gallery export_filter user db = do
  rows ← export_selections gallery export_filter user db
  ok (write_rows (header_row ∷ map csv_row rows))

-- `", ".join(…)`
unfoldable pub join_names : List ExportRow → Bytes
join_names [] = []
join_names (r ∷ []) = r.filename
join_names (r ∷ next ∷ rows) = r.filename ++ 44 ∷ 32 ∷ join_names (next ∷ rows)

unfoldable pub export_txt : ℕ → ExportFilter → ℕ → Database → Result Error Bytes
unfolding join_names
export_txt gallery export_filter user db = do
  rows ← export_selections gallery export_filter user db
  ok (join_names rows)
