-- ===== src/Guest/Pages/Cursors.antt =====
-- The cursors of the image pages.
use picture_stage.Base.{
  ℕ, ◌≡◌, refl, inl, inr, true, false, Bytes, arith, bytes_eq, bytes_eq_refl, eq_of_bytes_eq,
  Bool-cases, ==_refl, ◌<◌, ◌≤◌, ◌^◌, ltb, length,
}
use mathlib.Core.Path.{subst, ◌∙◌, ap}
use picture_stage.Base.Results.{ok, ok_inj}
use picture_stage.Guest.PageOrder.{
  ImageSortBy, by_sort_order, by_filename, by_exif_date, SortDirection, asc, desc, ImageFilter,
  all_images, selected_only, favorited_only, unrated_only, same_sort, same_direction, same_filter,
  Keys, sort_keys, name_keys, capture_keys,
}
use picture_stage.Guest.Pages.{
  PageCursor, Signature, SignedCursor, are_keys, is_for_page, encode_page_cursor,
  decode_page_cursor,
}

same_sort_refl : (s : ImageSortBy) → same_sort s s ≡ true
same_sort_refl by_sort_order = refl
same_sort_refl by_filename = refl
same_sort_refl by_exif_date = refl

same_direction_refl : (d : SortDirection) → same_direction d d ≡ true
same_direction_refl asc = refl
same_direction_refl desc = refl

same_filter_refl : (f : ImageFilter) → same_filter f f ≡ true
same_filter_refl all_images = refl
same_filter_refl selected_only = refl
same_filter_refl favorited_only = refl
same_filter_refl unrated_only = refl

eq_of_same_sort : (s t : ImageSortBy) → same_sort s t ≡ true → s ≡ t
eq_of_same_sort s t h = ground (arith, h)

eq_of_same_direction : (s t : SortDirection) → same_direction s t ≡ true → s ≡ t
eq_of_same_direction s t h = ground (arith, h)

eq_of_same_filter : (s t : ImageFilter) → same_filter s t ≡ true → s ≡ t
eq_of_same_filter s t h = ground (arith, h)

-- The keys of a row in an order, as the columns can hold them.
abbrev pub AreKeysOf : ImageSortBy → Keys → Type 0
AreKeysOf by_sort_order (sort_keys order _) = order < 2 ^ 31
AreKeysOf by_filename (name_keys name _) = length name.text ≤ 512
AreKeysOf by_exif_date (capture_keys _ order _) = order < 2 ^ 31
AreKeysOf _ _ = ⊥

are_keys-AreKeysOf : (s : ImageSortBy) (keys : Keys) → are_keys s keys ≡ true → AreKeysOf s keys
are_keys-AreKeysOf by_sort_order (sort_keys order id) h = ground (arith, h)
are_keys-AreKeysOf by_sort_order (name_keys name id) h = cc
are_keys-AreKeysOf by_sort_order (capture_keys time order id) h = cc
are_keys-AreKeysOf by_filename (sort_keys order id) h = cc
are_keys-AreKeysOf by_filename (name_keys name id) h = ground (arith, h)
are_keys-AreKeysOf by_filename (capture_keys time order id) h = cc
are_keys-AreKeysOf by_exif_date (sort_keys order id) h = cc
are_keys-AreKeysOf by_exif_date (name_keys name id) h = cc
are_keys-AreKeysOf by_exif_date (capture_keys time order id) h = ground (arith, h)

module _ (codec : Signature) (gallery : ℕ) (s : ImageSortBy) (d : SortDirection)
    (f : ImageFilter) where
  -- A cursor that was given out is read back, for the same gallery, order and filter.
  pub decode_page_cursor-encode_page_cursor :
      (keys : Keys)
      → are_keys s keys ≡ true
      → decode_page_cursor codec gallery s d f (encode_page_cursor codec gallery s d f keys)
        ≡ ok keys
  unfolding decode_page_cursor encode_page_cursor
  decode_page_cursor-encode_page_cursor keys h =
      let cursor = (encode_page_cursor codec gallery s d f keys).0 in
      let short : ltb 8192 (codec.text_length (cursor, codec.sign cursor)) ≡ false =
        ground (arith, codec.text_length-sign s cursor h) in
      rw
        (
          short,
          bytes_eq_refl (encode_page_cursor codec gallery s d f keys).1,
          ==_refl gallery,
          same_sort_refl s,
          same_direction_refl d,
          same_filter_refl f,
          h,
        )
        refl

  -- A cursor for the page is the one that is given out for its keys.
  is_for_page-encode_page_cursor :
      (c : PageCursor)
      → is_for_page codec gallery s d f c ≡ true
      → (c, codec.sign c) ≡ encode_page_cursor codec gallery s d f c.keys
  unfolding encode_page_cursor
  is_for_page-encode_page_cursor c h =
      let version : c.version ≡ 1 = ground (arith, h) in
      let same_gallery : c.gallery_id ≡ gallery = ground (arith, h) in
      let sort = eq_of_same_sort c.sort_by s (ground (arith, h)) in
      let direction = eq_of_same_direction c.sort_dir d (ground (arith, h)) in
      let mode = eq_of_same_filter c.filter_mode f (ground (arith, h)) in
      let size : c.page_size ≡ 30 = ground (arith, h) in
      let whole : c ≡ (encode_page_cursor codec gallery s d f c.keys).0 = λ i. record {
        version = version i;
        gallery_id = same_gallery i;
        sort_by = sort i;
        sort_dir = direction i;
        filter_mode = mode i;
        page_size = size i;
        keys = c.keys;
      } in
      ap (λ (x : PageCursor). (x, codec.sign x)) whole

  -- A cursor is accepted only if it is the one, with the server's signature, that is given out for
  -- the gallery, the order and the filter of the request behind the keys that are read from it; they
  -- are keys of the order, within what the columns hold, and the text is within the limit.
  pub decode_page_cursor_proves :
      (cursor : SignedCursor) {keys : Keys}
      → decode_page_cursor codec gallery s d f cursor ≡ ok keys
      → (cursor ≡ encode_page_cursor codec gallery s d f keys)
        × AreKeysOf s keys
        × (codec.text_length cursor ≤ 8192)
  unfolding decode_page_cursor
  decode_page_cursor_proves (c, signature) {keys = keys} e =
      elim (Bool-cases (ltb 8192 (codec.text_length (c, signature)))) [
        | inl long ↦ let refused = rw long at e in cc
        | inr short ↦ elim (Bool-cases (bytes_eq signature (codec.sign c))) [
          | inr n ↦ let refused = rw (short, n) at e in cc
          | inl signed ↦ elim (Bool-cases (is_for_page codec gallery s d f c)) [
            | inr n ↦ let refused = rw (short, signed, n) at e in cc
            | inl fits ↦ elim (Bool-cases (are_keys s c.keys)) [
              | inr n ↦ let refused = rw (short, signed, fits, n) at e in cc
              | inl bounded ↦
                  let same = ok_inj (rw (short, signed, fits, bounded) at e) in
                  (
                    ap (λ (x : Bytes). (c, x)) (eq_of_bytes_eq signature (codec.sign c) signed)
                        ∙ is_for_page-encode_page_cursor c fits
                        ∙ ap (encode_page_cursor codec gallery s d f) same,
                    subst (AreKeysOf s) same (are_keys-AreKeysOf s c.keys bounded),
                    ground (arith, short),
                  )
            ]
          ]
        ]
      ]
