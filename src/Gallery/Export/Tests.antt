-- ===== src/Gallery/Export/Tests.antt =====
-- The export of a gallery with one picture, whose name starts like a formula.
use picture_stage.Base.{
  ◌≡◌, refl, List, none, if◌then◌else◌, ◌==◌, true, false, some, [], ◌∷◌, Bytes, map, any,
}
use picture_stage.Base.Results.{ok, err}
use picture_stage.Examples.{database, picture}
use picture_stage.Models.{Database}
use picture_stage.Selections.{order_images, insert_image, get_current_selections}
use picture_stage.Gallery.Csv.{spreadsheet_text, lstrip, is_space, write_rows}
use picture_stage.Gallery.CsvReader.{at_row, read_csv, cells_of, read_csv-write_rows}
use picture_stage.Gallery.Share.{is_owned}
use picture_stage.Gallery.Export.{
  all_rows, marked_rows, export_csv, export_txt, export_selections, get_materialized_selections,
  gallery_not_found, header_row,
}
use picture_stage.Gallery.Export.Cells.{
  state_of_row, get_materialized_selections-get_current_selections,
}
use picture_stage.Gallery.CsvSafe.{IsHazard}
use picture_stage.Gallery.Export.Rows.{AreRowsOf, export_csv_reads}
use picture_stage.Gallery.Export.Safe.{here, in_row, below, export_csv_safe}

-- The name `=1`; its cell starts with an apostrophe.
abbrev formula : Bytes
formula = 61 ∷ 49 ∷ []

abbrev made_safe : Bytes
made_safe = 39 ∷ 61 ∷ 49 ∷ []

cell_is_made_safe : spreadsheet_text formula ≡ made_safe
unfolding spreadsheet_text lstrip is_space
cell_is_made_safe = refl

get_materialized_selections-get_current_selections_example :
    map state_of_row (get_materialized_selections 5 database) ≡ get_current_selections 5 database
get_materialized_selections-get_current_selections_example =
    get_materialized_selections-get_current_selections 5 database

nothing_is_marked : export_txt 5 marked_rows 1 database ≡ ok []
unfolding export_txt export_selections get_materialized_selections order_images insert_image
nothing_is_marked = refl

stranger_refused : export_csv 5 all_rows 2 database ≡ err gallery_not_found
unfolding export_csv export_selections
stranger_refused = refl

-- The picture is selected, with the comment `+`.
abbrev rated : Database
rated = record database {
  current_selections = λ image.
      if image == 70
      then some (record {
        selected = record { value = true; version = none };
        favorited = record { value = false; version = none };
        comment = record { value = some (43 ∷ []); version = none };
      })
      else none;
}

abbrev rated_row : Bytes × List Bytes
rated_row = (
  made_safe,
  (84 ∷ 114 ∷ 117 ∷ 101 ∷ []) ∷ (70 ∷ 97 ∷ 108 ∷ 115 ∷ 101 ∷ []) ∷ (39 ∷ 43 ∷ []) ∷ [],
)

abbrev file : Bytes
file = write_rows (header_row ∷ rated_row ∷ [])

picture_is_exported : export_csv 5 marked_rows 1 rated ≡ ok file
unfolding export_csv export_selections get_materialized_selections order_images insert_image
    spreadsheet_text lstrip is_space
picture_is_exported = refl

export_csv_reads_example :
    (any (is_owned 5 1) rated.galleries ≡ true)
    × (rows : List (List Bytes)) × (read_csv at_row [] [] [] file
        ≡ some (cells_of header_row ∷ rows))
    × AreRowsOf marked_rows rated.current_selections (picture ∷ []) rows
unfolding order_images insert_image
export_csv_reads_example = export_csv_reads 5 marked_rows 1 rated picture_is_exported

file_is_read : read_csv at_row [] [] [] file ≡ some (cells_of header_row ∷ cells_of rated_row ∷ [])
file_is_read = read_csv-write_rows (header_row ∷ rated_row ∷ [])

export_csv_safe_example : ¬ IsHazard made_safe
export_csv_safe_example =
    export_csv_safe 5 marked_rows 1 rated (cells_of header_row ∷ cells_of rated_row ∷ [])
      picture_is_exported file_is_read (below (in_row here))
