-- ===== src/Images/Deletion.antt =====
-- The deletion of images: `delete_image` and `bulk_delete_images` of app/images/router.py with
-- `tracked_image_storage_keys` of app/images/storage_cleanup.py. The refund of an image's charges is
-- a transaction of its own, so that a deletion that fails at a later image has refunded the earlier.
pub mod Bulk
mod Tests
use picture_stage.Base.{
  ℕ, ◌≡◌, Bool, true, false, not, ◌&&◌, ◌||◌, Option, none, some, List, [], ◌∷◌, ◌++◌, filter,
  find_where, length, contains, is_empty, is_none, ◌==◌, if◌then◌else◌,
}
use picture_stage.Base.Results.{Result, ok, err}
use picture_stage.Models.{Gallery, Image, SelectionEvent, Database, PreviewVariant}
use picture_stage.Storage.Quota.{Tables, allocation_keys}
use picture_stage.Gallery.Share.{is_owned}
use picture_stage.Gallery.Removal
use picture_stage.Gallery.Removal.{image_storage_keys, delete_storage_keys}

pub data Error : Type 0 where
  gallery_not_found image_not_found : Error
  not_deleted : Removal.Error → Error

abbrev pub PreviewKey : Type 0
PreviewKey = ℕ → ℕ → PreviewVariant → ℕ

unfoldable pub tracked_image_storage_keys : PreviewKey → Image → Tables → List ℕ
tracked_image_storage_keys storage_key i t =
    image_storage_keys storage_key i ++ allocation_keys (some i.gallery_id) (some i.id) none t

-- `db.delete(image)`, with what cascades to its events and its projection.
unfoldable pub delete_row : Image → Database → Database
delete_row i db = record db {
  images = filter (λ x. not (x.id == i.id)) db.images;
  selection_events = filter (λ e. not (e.image_id == i.id)) db.selection_events;
  current_selections = λ image. if image == i.id then none else db.current_selections image;
}

abbrev pub is_image : ℕ → ℕ → Image → Bool
is_image gallery image i = i.id == image && i.gallery_id == gallery

-- The objects and then the row of each image. A failure leaves the rows of the database.
unfoldable pub delete_images :
    PreviewKey → (ℕ → Bool) → List Image → Database → Tables → Result Error Database × Tables
unfolding tracked_image_storage_keys
delete_images storage_key fails [] db t = (ok db, t)
delete_images storage_key fails (i ∷ images) db t =
    elim (delete_storage_keys fails (tracked_image_storage_keys storage_key i t) t) [
      | err e ↦ (err (not_deleted e), t)
      | ok t' ↦ delete_images storage_key fails images (delete_row i db) t'
    ]

abbrev pub delete_found :
    PreviewKey → (ℕ → Bool) → Option Image → Database → Tables → Result Error Database × Tables
delete_found storage_key fails none db t = (err image_not_found, t)
delete_found storage_key fails (some i) db t = delete_images storage_key fails (i ∷ []) db t

unfoldable pub delete_image :
    PreviewKey → (ℕ → Bool) → ℕ → ℕ → ℕ → Database → Tables → Result Error Database × Tables
delete_image storage_key fails gallery image user db t =
    let found =
      delete_found storage_key fails (find_where (is_image gallery image) db.images) db t in
    if is_none (find_where (is_owned gallery user) db.galleries)
    then (err gallery_not_found, t)
    else found

abbrev pub is_listed : ℕ → List ℕ → Image → Bool
is_listed gallery image_ids i = contains i.id image_ids && i.gallery_id == gallery

unfoldable pub bulk_delete_images :
    PreviewKey → (ℕ → Bool) → ℕ → List ℕ → ℕ → Database → Tables → Result Error Database × Tables
bulk_delete_images storage_key fails gallery image_ids user db t =
    let images = filter (is_listed gallery image_ids) db.images in
    let all = delete_images storage_key fails images db t in
    if is_none (find_where (is_owned gallery user) db.galleries)
    then (err gallery_not_found, t)
    else if is_empty image_ids
    then (ok db, t)
    else all
