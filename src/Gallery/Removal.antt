-- ===== src/Gallery/Removal.antt =====
-- app/galleries/deletion.py with app/images/storage_cleanup.py: removing a gallery with its stored
-- objects, its rows and its charges. The backend is given by the keys whose deletion raises, and
-- `storage_key` by the number of the key that it forms for a preview.
pub mod Purge
pub mod ByOwner
mod Tests
use picture_stage.Base.{
  ℕ, Bool, true, false, not, ◌&&◌, ◌||◌, Option, none, some, List, [], ◌∷◌, ◌++◌, map, filter, any,
  concat_map, is_empty, sorted_set, ◌==◌, if◌then◌else◌,
}
use picture_stage.Base.Results.{Result, ok, err, raise_if, map_error, ◌>>=◌, ◌>>◌}
use picture_stage.Models.{
  Gallery, Image, ShareSession, SelectionEvent, UploadCleanupIntent, AuditLog, Database,
  PreviewVariant, thumb_sm, thumb_md, preview, gallery_is,
}
use picture_stage.Storage.Quota
use picture_stage.Storage.Quota.{Tables, allocation_keys, release}

-- `StorageCleanupError` with its keys, or an error of the accounting.
pub data Error : Type 0 where
  cleanup_incomplete : List ℕ → Error
  accounting : Quota.Error → Error

unfoldable pub canonical_preview_keys : (ℕ → ℕ → PreviewVariant → ℕ) → ℕ → ℕ → List ℕ
canonical_preview_keys storage_key gallery image =
    map (storage_key gallery image) (thumb_sm ∷ thumb_md ∷ preview ∷ [])

unfoldable pub image_storage_keys : (ℕ → ℕ → PreviewVariant → ℕ) → Image → List ℕ
unfolding canonical_preview_keys
image_storage_keys storage_key i =
    i.storage_key ∷ (i.previews ++ canonical_preview_keys storage_key i.gallery_id i.id)

-- Every key is tried before the failures are raised; then the keys are refunded.
unfoldable pub delete_storage_keys : (ℕ → Bool) → List ℕ → Tables → Result Error Tables
delete_storage_keys fails keys t = do
  raise_if (not (is_empty (filter fails (sorted_set keys))))
      (cleanup_incomplete (filter fails (sorted_set keys)))
  map_error accounting (release (sorted_set keys) t)

abbrev pub image_in : ℕ → Image → Bool
image_in gallery i = i.gallery_id == gallery

abbrev pub session_in : ℕ → ShareSession → Bool
session_in gallery s = s.gallery_id == gallery

abbrev pub intent_in : ℕ → UploadCleanupIntent → Bool
intent_in gallery i = i.gallery_id == gallery

-- The keys that `purge_gallery` collects: of the images, of the batches, and of the charges.
unfoldable pub gallery_keys : (ℕ → ℕ → PreviewVariant → ℕ) → ℕ → Database → Tables → List ℕ
unfolding image_storage_keys allocation_keys
gallery_keys storage_key gallery db t =
    concat_map (image_storage_keys storage_key) (filter (image_in gallery) db.images)
    ++ concat_map (λ i. concat_map (λ keys. keys) i.image_keys)
        (filter (intent_in gallery) db.upload_cleanup_intents)
    ++ allocation_keys (some gallery) none none t

-- An event of one of the gallery's images, or, by the cascade from its sessions, of one of those.
abbrev pub event_in : ℕ → Database → SelectionEvent → Bool
event_in gallery db e =
    any (λ i. i.id == e.image_id && image_in gallery i) db.images
    || any (λ s. s.id == e.share_session_id && session_in gallery s) db.share_sessions

abbrev pub audit_in : ℕ → AuditLog → Bool
audit_in gallery a = elim a.gallery_id [ none ↦ false | some g ↦ g == gallery ]

abbrev pub detach : ℕ → AuditLog → AuditLog
detach gallery a = if audit_in gallery a then record a { gallery_id = none } else a

-- The statements of `purge_gallery`, with what cascades to the projection and the checkpoint.
unfoldable pub purge_rows : ℕ → Database → Database
purge_rows gallery db = record db {
  selection_events = filter (λ e. not (event_in gallery db e)) db.selection_events;
  current_selections = λ image.
      if any (λ i. i.id == image && image_in gallery i) db.images
      then none
      else db.current_selections image;
  share_sessions = filter (λ s. not (session_in gallery s)) db.share_sessions;
  checkpoints = λ g. if g == gallery then none else db.checkpoints g;
  audit_log = map (detach gallery) db.audit_log;
  images = filter (λ i. not (image_in gallery i)) db.images;
  upload_cleanup_intents = filter (λ i. not (intent_in gallery i)) db.upload_cleanup_intents;
  galleries = filter (λ g. not (gallery_is gallery g)) db.galleries;
}

unfoldable pub purge_gallery :
    (ℕ → ℕ → PreviewVariant → ℕ)
    → (ℕ → Bool)
    → ℕ
    → Database × Tables
    → Result Error (Database × Tables)
unfolding gallery_keys delete_storage_keys purge_rows
purge_gallery storage_key fails gallery (db, t) = do
  t' ← delete_storage_keys fails (gallery_keys storage_key gallery db t) t
  ok (purge_rows gallery db, t')
