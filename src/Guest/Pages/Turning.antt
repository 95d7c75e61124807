-- ===== src/Guest/Pages/Turning.antt =====
-- Turning the pages of a gallery shows every image that the filter admits, once and in order.
use picture_stage.Base.{
  ℕ, zero, suc, ◌+◌, ◌*◌, ◌^◌, ◌<◌, ◌≤◌, ◌≡◌, refl, inl, inr, true, Option, none, some, List, [],
  ◌∷◌, ◌++◌, arith, Bool-cases, All, All-filter, All-order_by, filter, take, drop, length,
  length-take, length-drop, take_all, get_elem?, get_elem?-length, take-take, AreComparable-filter,
  order_by, order_by-drop, length-order_by, filter_from_start, order_by-IsOrdered, IsOrdered,
  is_behind, ltb,
}
use mathlib.Core.Path.{ap, subst, ◌∙◌}
use picture_stage.Base.Results.{ok}
use picture_stage.Models.{Image, Database}
use picture_stage.Guest.PageOrder.{
  ImageSortBy, by_sort_order, by_filename, by_exif_date, SortDirection, ImageFilter, Keys, keys_of,
  precedes,
}
use picture_stage.Guest.Pages.{
  Signature, are_keys, filtered_images, rows_behind, last_row, page_of, load_guest_image_page, turn,
  turn_pages, encode_page_cursor, is_shown,
}
use picture_stage.Guest.Pages.Precedence.{
  precedes_trans, precedes_irrefl, AreDistinct, AreDistinct-AreComparable,
}
use picture_stage.Guest.Pages.Cursors.{decode_page_cursor-encode_page_cursor}

module _ {A : Type 0} where
  take-drop : (n : ℕ) (xs : List A) → take n xs ++ drop n xs ≡ xs
  take-drop zero xs = refl
  take-drop (suc n) [] = refl
  take-drop (suc n) (x ∷ xs) = rw (take-drop n xs) refl

-- The last row of a full page is the row before the next one.
last_row-take :
    (n : ℕ) (rows : List Image) {i : Image}
    → get_elem? rows n ≡ some i
    → last_row (take (suc n) rows) ≡ some i
last_row-take n [] e = cc
last_row-take zero (i ∷ rows) e = e
last_row-take (suc n) (i ∷ []) e = cc
last_row-take (suc n) (i ∷ j ∷ rows) e = last_row-take n (j ∷ rows) e

-- What the columns can hold.
pub record IsStored (i : Image) : Type 0 where
  pub order_bounded : i.sort_order < 2 ^ 31
  pub name_bounded : length i.filename.text ≤ 512

IsStored-are_keys : (s : ImageSortBy) (i : Image) → IsStored i → are_keys s (keys_of s i) ≡ true
IsStored-are_keys by_sort_order i h = ground (arith, h)
IsStored-are_keys by_filename i h = ground (arith, h)
IsStored-are_keys by_exif_date i h = ground (arith, h)

All_get_elem? :
    (P : Image → Type 0) (xs : List Image) (n : ℕ) {i : Image}
    → All P xs
    → get_elem? xs n ≡ some i
    → P i
All_get_elem? P [] n h e = cc
All_get_elem? P (x ∷ xs) zero {i = i} h e = let same : x ≡ i = cc in subst P same h.0
All_get_elem? P (x ∷ xs) (suc n) h e = All_get_elem? P xs n h.1 e

module _ (codec : Signature) (gallery : ℕ) (s : ImageSortBy) (d : SortDirection) (f : ImageFilter)
    (db : Database) (distinct : AreDistinct db.images) (stored : All IsStored db.images) where
  abbrev rows : Option Keys → List Image
  rows keys = rows_behind codec gallery s d f keys db

  -- The rows behind a row of a page are those that follow it.
  rows-drop :
      (keys : Option Keys) (n : ℕ) {i : Image}
      → get_elem? (rows keys) n ≡ some i
      → rows (some (keys_of s i)) ≡ drop (suc n) (rows keys)
  unfolding rows_behind filtered_images
  rows-drop keys n e =
      order_by-drop (keys_of s) (precedes d) (precedes_trans d) (precedes_irrefl d)
        (filtered_images codec gallery s d f db) keys n
        (AreComparable-filter (keys_of s) (precedes d) (is_shown codec gallery s d f db) db.images
          (AreDistinct-AreComparable s d db.images distinct))
        e

  rows-IsStored : (keys : Option Keys) → All IsStored (rows keys)
  unfolding rows_behind filtered_images
  rows-IsStored keys =
      All-order_by (keys_of s) (precedes d) IsStored
        (filter (is_behind (keys_of s) (precedes d) keys) (filtered_images codec gallery s d f db))
        (All-filter IsStored (is_behind (keys_of s) (precedes d) keys)
          (filtered_images codec gallery s d f db)
          (All-filter IsStored (is_shown codec gallery s d f db) db.images stored))

  -- What one page of rows shows, and where the next page starts.
  pub data Paged (keys : Option Keys) : Type 0 where
    last_page :
        length (rows keys) ≤ 30
        → (page_of codec gallery s d f db (take 31 (rows keys))).images ≡ rows keys
        → (page_of codec gallery s d f db (take 31 (rows keys))).next_cursor ≡ none
        → Paged keys
    full_page :
        (i : Image)
        → get_elem? (rows keys) 29 ≡ some i
        → 30 < length (rows keys)
        → (page_of codec gallery s d f db (take 31 (rows keys))).images ≡ take 30 (rows keys)
        → (page_of codec gallery s d f db (take 31 (rows keys))).next_cursor
          ≡ some (encode_page_cursor codec gallery s d f (keys_of s i))
        → Paged keys

  page_of-Paged : (keys : Option Keys) → Paged keys
  unfolding page_of
  page_of-Paged keys =
      let size = length-take 31 (rows keys) in
      let shown = take-take 30 (rows keys) in
      elim (Bool-cases (ltb 30 (length (take 31 (rows keys))))) [
        | inr f ↦
            let short : length (rows keys) ≤ 30 = ground (arith, size, f) in
            last_page short (shown ∙ take_all 30 (rows keys) short) (rw f refl)
        | inl t ↦
            let long : 30 < length (rows keys) = ground (arith, size, t) in
            let (i, read) = get_elem?-length 29 (rows keys) (omega (arith, long)) in
            let last = last_row-take 29 (rows keys) read in
            full_page i read long shown (rw (t, shown, last) refl)
      ]

  pub turn_all :
      (n : ℕ) (keys : Option Keys)
      → length (rows keys) ≤ 30 + 30 * n
      → turn codec gallery s d f
          (page_of codec gallery s d f db (take 31 (rows keys))).images
          (λ c. turn_pages codec gallery s d f n db (some c))
          (page_of codec gallery s d f db (take 31 (rows keys))).next_cursor
        ≡ ok (rows keys)
  unfolding turn_pages load_guest_image_page
  turn_all zero keys enough = elim (page_of-Paged keys) [
    | last_page short shown ends ↦ rw (shown, ends) refl
    | full_page i read long shown goes ↦ ground (arith, enough, long)
  ]
  turn_all (suc n) keys enough = elim (page_of-Paged keys) [
    | last_page short shown ends ↦ rw (shown, ends) refl
    | full_page i read long shown goes ↦
        let behind = rows-drop keys 29 read in
        let kept = All_get_elem? IsStored (rows keys) 29 (rows-IsStored keys) read in
        let decoded =
          decode_page_cursor-encode_page_cursor codec gallery s d f (keys_of s i)
            (IsStored-are_keys s i kept) in
        let rest =
          turn_all n (some (keys_of s i))
            (rw behind (omega (arith, enough, length-drop 30 (rows keys)))) in
        rw (shown, goes, decoded, rest, behind) (ap ok (take-drop 30 (rows keys)))
  ]

  -- The rows of the first page are those of all pages.
  rows_from_start :
      rows none ≡ order_by (keys_of s) (precedes d) (filtered_images codec gallery s d f db)
  unfolding rows_behind
  rows_from_start =
      ap (order_by (keys_of s) (precedes d))
        (filter_from_start (keys_of s) (precedes d) (filtered_images codec gallery s d f db))

  -- For images with distinct ids whose values fit their columns: a guest who turns the pages, from
  -- the first until there is no next cursor, is shown every image of the gallery that the filter
  -- admits, once each and in the order asked for, within one page for each 30 of them and one more.
  pub turn_pages-order_by :
      (n : ℕ)
      → length (filtered_images codec gallery s d f db) ≤ 30 + 30 * n
      → (turn_pages codec gallery s d f (suc n) db none
          ≡ ok (order_by (keys_of s) (precedes d) (filtered_images codec gallery s d f db)))
        × IsOrdered
            (keys_of s)
            (precedes d)
            (order_by (keys_of s) (precedes d) (filtered_images codec gallery s d f db))
  unfolding turn_pages load_guest_image_page filtered_images
  turn_pages-order_by n enough =
      let size =
        length-order_by (keys_of s) (precedes d) (filtered_images codec gallery s d f db) in
      let comparable =
        AreComparable-filter (keys_of s) (precedes d) (is_shown codec gallery s d f db) db.images
          (AreDistinct-AreComparable s d db.images distinct) in
      (
        turn_all n none (rw rows_from_start (omega (arith, size, enough))) ∙ ap ok rows_from_start,
        order_by-IsOrdered (keys_of s) (precedes d) (precedes_trans d)
            (filtered_images codec gallery s d f db) comparable,
      )
