-- ===== src/Guest/PageOrder.antt =====
-- The orders and filters of the image pages of app/guest/service.py, by app/guest/schemas.py.
use picture_stage.Base.{ℕ, Bool, true, false, ◌&&◌, ◌||◌, List, [], ◌∷◌, ltb, ◌==◌}
use picture_stage.Models.{Filename, Image}

pub data ImageSortBy : Type 0 where
  by_sort_order by_filename by_exif_date : ImageSortBy

pub data SortDirection : Type 0 where
  asc desc : SortDirection

pub data ImageFilter : Type 0 where
  all_images selected_only favorited_only unrated_only : ImageFilter

abbrev pub same_sort : ImageSortBy → ImageSortBy → Bool
same_sort by_sort_order by_sort_order = true
same_sort by_filename by_filename = true
same_sort by_exif_date by_exif_date = true
same_sort _ _ = false

abbrev pub same_direction : SortDirection → SortDirection → Bool
same_direction asc asc = true
same_direction desc desc = true
same_direction _ _ = false

abbrev pub same_filter : ImageFilter → ImageFilter → Bool
same_filter all_images all_images = true
same_filter selected_only selected_only = true
same_filter favorited_only favorited_only = true
same_filter unrated_only unrated_only = true
same_filter _ _ = false

-- The values of the columns that an order compares; the last is the id.
pub data Keys : Type 0 where
  sort_keys : ℕ → ℕ → Keys
  name_keys : Filename → ℕ → Keys
  capture_keys : ℕ → ℕ → ℕ → Keys

abbrev pub keys_of : ImageSortBy → Image → Keys
keys_of by_sort_order i = sort_keys i.sort_order i.id
keys_of by_filename i = name_keys i.filename i.id
keys_of by_exif_date i = capture_keys i.capture_sort_key i.sort_order i.id

abbrev pub columns : Keys → List ℕ
columns (sort_keys order id) = order ∷ id ∷ []
columns (name_keys name id) = name.place ∷ id ∷ []
columns (capture_keys captured order id) = captured ∷ order ∷ id ∷ []

-- SQL's comparison of rows.
unfoldable pub tuple_lt : List ℕ → List ℕ → Bool
tuple_lt [] t = false
tuple_lt (a ∷ s) [] = false
tuple_lt (a ∷ s) (b ∷ t) = ltb a b || a == b && tuple_lt s t

unfoldable pub precedes : SortDirection → Keys → Keys → Bool
precedes asc a b = tuple_lt (columns a) (columns b)
precedes desc a b = tuple_lt (columns b) (columns a)
