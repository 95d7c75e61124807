-- ===== src/Guest/Pages/Tests.antt =====
-- Two pictures, in both directions.
use picture_stage.Base.{ℕ, ◌≤◌, ◌*◌, ◌+◌, min, length, ◌≡◌, refl, arith, none, [], ◌∷◌, IsOrdered}
use picture_stage.Base.Results.{ok, err}
use picture_stage.Models.{Image, Database}
use picture_stage.Examples.{picture, database}
use picture_stage.Guest.PageOrder.{
  by_sort_order, by_filename, asc, desc, all_images, selected_only, Keys, name_keys, capture_keys,
  sort_keys, keys_of, precedes, tuple_lt,
}
use picture_stage.Guest.Pages.{
  PageCursor, Signature, filtered_images, rows_behind, page_of, selection_filter,
  load_guest_image_page, turn_pages, encode_page_cursor, decode_page_cursor, invalid_cursor,
}
use picture_stage.Guest.Pages.Cursors.{AreKeysOf, decode_page_cursor_proves}
use picture_stage.Guest.Pages.Turning.{turn_pages-order_by}

abbrev second_picture : Image
second_picture = record picture {
  id = 71;
  sort_order = 1;
  filename = record { place = 1; text = 97 ∷ [] };
}

abbrev album : Database
album = record database { images = second_picture ∷ picture ∷ [] }

-- Eight characters for each of a name, and the rest.
abbrev text_length : Keys → ℕ
text_length (name_keys name _) = min (length name.text) 512 * 8 + 224
text_length _ = 224

short : (keys : Keys) → text_length keys ≤ 8192
short (sort_keys _ _) = omega arith
short (name_keys name _) = ground arith
short (capture_keys _ _ _) = omega arith

abbrev codec : Signature
codec = record {
  sign = λ c. c.gallery_id ∷ c.page_size ∷ [];
  text_length = λ c. text_length c.0.keys;
  text_length-sign = λ s c h. short c.keys;
}

turn_pages-order_by_example :
    (turn_pages codec 5 by_sort_order asc all_images 1 album none
      ≡ ok (picture ∷ second_picture ∷ []))
    × IsOrdered (keys_of by_sort_order) (precedes asc) (picture ∷ second_picture ∷ [])
unfolding precedes tuple_lt filtered_images selection_filter
turn_pages-order_by_example =
    turn_pages-order_by codec 5 by_sort_order asc all_images album (ground arith) (ground arith) 0
      (omega arith)

names_go_down :
    turn_pages codec 5 by_filename desc all_images 1 album none ≡ ok (picture ∷ second_picture ∷ [])
unfolding turn_pages load_guest_image_page precedes tuple_lt filtered_images selection_filter
    page_of rows_behind
names_go_down = refl

nothing_is_selected : turn_pages codec 5 by_filename desc selected_only 1 album none ≡ ok []
unfolding turn_pages load_guest_image_page filtered_images selection_filter page_of rows_behind
nothing_is_selected = refl

abbrev behind_picture : PageCursor
behind_picture = record {
  version = 1;
  gallery_id = 5;
  sort_by = by_sort_order;
  sort_dir = asc;
  filter_mode = all_images;
  page_size = 30;
  keys = sort_keys 0 70;
}

cursor_is_read :
    decode_page_cursor codec 5 by_sort_order asc all_images (behind_picture, 5 ∷ 30 ∷ [])
    ≡ ok (sort_keys 0 70)
unfolding decode_page_cursor
cursor_is_read = refl

other_gallery_refused :
    decode_page_cursor codec 6 by_sort_order asc all_images (behind_picture, 5 ∷ 30 ∷ [])
    ≡ err invalid_cursor
unfolding decode_page_cursor
other_gallery_refused = refl

decode_page_cursor_proves_example :
    ((behind_picture, 5 ∷ 30 ∷ [])
      ≡ encode_page_cursor codec 5 by_sort_order asc all_images (sort_keys 0 70))
    × AreKeysOf by_sort_order (sort_keys 0 70)
    × (224 ≤ 8192)
decode_page_cursor_proves_example =
    decode_page_cursor_proves codec 5 by_sort_order asc all_images (behind_picture, 5 ∷ 30 ∷ [])
      cursor_is_read
