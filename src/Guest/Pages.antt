-- ===== src/Guest/Pages.antt =====
-- The image pages of app/guest/service.py: `load_guest_image_page` with its cursors. A cursor is
-- modelled by the list that it encodes and its signature; the HMAC over that list is given. The
-- images of a page are read again by their ids in the order of the page, in the same transaction:
-- the model keeps the rows of the first query.
pub mod Precedence
pub mod Cursors
pub mod Turning
mod Tests
use picture_stage.Base.{
  ℕ, zero, suc, ◌^◌, ◌-◌, ◌≡◌, ◌≤◌, Bool, true, false, not, ◌&&◌, ◌||◌, Option, none, some, List,
  [], ◌∷◌, ◌++◌, map, Bytes, bytes_eq, length, take, filter, count_where, order_by, is_behind, ltb,
  leb, ◌==◌, if◌then◌else◌, is_some,
}
use picture_stage.Base.Results.{Result, ok, err, raise_if, or_raise, ◌>>=◌, ◌>>◌}
use picture_stage.Models.{Filename, Image, CurrentSelection, Database}
use picture_stage.Guest.PageOrder.{
  ImageSortBy, by_sort_order, by_filename, by_exif_date, SortDirection, asc, desc, ImageFilter,
  all_images, selected_only, favorited_only, unrated_only, same_sort, same_direction, same_filter,
  Keys, sort_keys, name_keys, capture_keys, keys_of, columns, tuple_lt, precedes,
}
use picture_stage.Selections.{SelectionState, row_or_default}

-- `_selection_filter`, on the outer join with the review state.
unfoldable pub selection_filter : ImageFilter → CurrentSelection → Bool
selection_filter all_images s = true
selection_filter selected_only s = s.selected.value
selection_filter favorited_only s = s.favorited.value
selection_filter unrated_only s = not s.selected.value && not s.favorited.value

abbrev pub gallery_page_size : ℕ
gallery_page_size = 30

pub record PageCursor : Type 0 where
  pub version : ℕ
  pub gallery_id : ℕ
  pub sort_by : ImageSortBy
  pub sort_dir : SortDirection
  pub filter_mode : ImageFilter
  pub page_size : ℕ
  pub keys : Keys

-- A cursor as it is sent.
abbrev pub SignedCursor : Type 0
SignedCursor = PageCursor × Bytes

-- The HTTP error 422.
pub data Error : Type 0 where
  invalid_cursor : Error

-- The kinds and the bounds of the keys. The lower bound of `sort_order` holds for the numbers that
-- stand for it.
abbrev pub are_keys : ImageSortBy → Keys → Bool
are_keys by_sort_order (sort_keys order _) = ltb order (2 ^ 31)
are_keys by_filename (name_keys name _) = leb (length name.text) 512
are_keys by_exif_date (capture_keys _ order _) = ltb order (2 ^ 31)
are_keys _ _ = false

abbrev pub max_cursor_length : ℕ
max_cursor_length = 8192

-- `_cursor_signature`, and the length of the text that JSON, base64 and the signature make of a
-- cursor. A name of 512 characters takes at most six bytes for each.
pub record Signature : Type 0 where
  pub sign : PageCursor → Bytes
  pub text_length : SignedCursor → ℕ
  pub text_length-sign :
      (sort_by : ImageSortBy) (c : PageCursor)
      → are_keys sort_by c.keys ≡ true
      → text_length (c, sign c) ≤ max_cursor_length

pub record GuestImagePage : Type 0 where
  pub images : List Image
  pub selections : List SelectionState
  pub next_cursor : Option SignedCursor
  pub total_images : ℕ
  pub selected_count : ℕ
  pub favorited_count : ℕ
  pub filtered_count : ℕ

-- `rows[-1]`
abbrev pub last_row : List Image → Option Image
last_row [] = none
last_row (i ∷ []) = some i
last_row (i ∷ j ∷ rows) = last_row (j ∷ rows)

module _ (codec : Signature) (gallery : ℕ) (sort_by : ImageSortBy) (sort_dir : SortDirection)
    (filter_mode : ImageFilter) where
  -- `_encode_page_cursor`
  unfoldable pub encode_page_cursor : Keys → SignedCursor
  encode_page_cursor keys =
      let cursor : PageCursor = record {
        version = 1;
        gallery_id = gallery;
        sort_by = sort_by;
        sort_dir = sort_dir;
        filter_mode = filter_mode;
        page_size = gallery_page_size;
        keys = keys;
      } in
      (cursor, codec.sign cursor)

  abbrev pub is_for_page : PageCursor → Bool
  is_for_page c =
      c.version == 1
      && c.gallery_id == gallery
      && same_sort c.sort_by sort_by
      && same_direction c.sort_dir sort_dir
      && same_filter c.filter_mode filter_mode
      && c.page_size == gallery_page_size

  -- `_decode_page_cursor`
  unfoldable pub decode_page_cursor : SignedCursor → Result Error Keys
  decode_page_cursor (c, signature) = do
    raise_if (ltb max_cursor_length (codec.text_length (c, signature))) invalid_cursor
    raise_if (not (bytes_eq signature (codec.sign c))) invalid_cursor
    raise_if (not (is_for_page c)) invalid_cursor
    raise_if (not (are_keys sort_by c.keys)) invalid_cursor
    ok c.keys

  abbrev pub decode_cursor : Option SignedCursor → Result Error (Option Keys)
  decode_cursor none = ok none
  decode_cursor (some c) = decode_page_cursor c >>= λ keys. ok (some keys)

  abbrev pub review_of : Database → Image → CurrentSelection
  review_of db i = row_or_default (db.current_selections i.id)

  abbrev pub in_gallery : Image → Bool
  in_gallery i = i.gallery_id == gallery

  abbrev pub is_shown : Database → Image → Bool
  is_shown db i = in_gallery i && selection_filter filter_mode (review_of db i)

  -- The images that the filter admits, of which the pages are made.
  unfoldable pub filtered_images : Database → List Image
  filtered_images db = filter (is_shown db) db.images

  -- The keys query without its limit.
  unfoldable pub rows_behind : Option Keys → Database → List Image
  rows_behind keys db =
      order_by (keys_of sort_by) (precedes sort_dir)
        (filter (is_behind (keys_of sort_by) (precedes sort_dir) keys) (filtered_images db))

  -- The states of the images that have one.
  abbrev pub selection_states : Database → List Image → List SelectionState
  selection_states db [] = []
  selection_states db (i ∷ images) = elim (db.current_selections i.id) [
    | none ↦ selection_states db images
    | some s ↦
        record {
          image_id = i.id;
          selected = s.selected.value;
          favorited = s.favorited.value;
          comment = s.comment.value;
        }
        ∷ selection_states db images
  ]

  abbrev pub cursor_of : Option Image → Option SignedCursor
  cursor_of none = none
  cursor_of (some i) = some (encode_page_cursor (keys_of sort_by i))

  abbrev pub count_images : Database → (CurrentSelection → Bool) → ℕ
  count_images db test = count_where (λ i. in_gallery i && test (review_of db i)) db.images

  -- The page from the rows that were read, at most one more than a page has.
  unfoldable pub page_of : Database → List Image → GuestImagePage
  page_of db rows =
      let images = take gallery_page_size rows in
      record {
        images = images;
        selections = selection_states db images;
        next_cursor =
            if ltb gallery_page_size (length rows) then cursor_of (last_row images) else none;
        total_images = count_images db (λ _. true);
        selected_count = count_images db (λ s. s.selected.value);
        favorited_count = count_images db (λ s. s.favorited.value);
        filtered_count = count_images db (selection_filter filter_mode);
      }

  unfoldable pub load_guest_image_page :
      Database → Option SignedCursor → Result Error GuestImagePage
  load_guest_image_page db cursor = do
    keys ← decode_cursor cursor
    ok (page_of db (take (suc gallery_page_size) (rows_behind keys db)))

  -- A guest who turns the pages, at most so many: the images that were shown.
  abbrev pub turn :
      List Image
      → (SignedCursor → Result Error (List Image))
      → Option SignedCursor
      → Result Error (List Image)
  turn shown rest none = ok shown
  turn shown rest (some c) = rest c >>= λ more. ok (shown ++ more)

  unfoldable pub turn_pages : ℕ → Database → Option SignedCursor → Result Error (List Image)
  turn_pages zero db cursor = ok []
  turn_pages (suc n) db cursor = do
    page ← load_guest_image_page db cursor
    turn page.images (λ c. turn_pages n db (some c)) page.next_cursor
