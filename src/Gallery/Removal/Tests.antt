-- ===== src/Gallery/Removal/Tests.antt =====
-- The removal of a gallery at work: one image with its previews and its charge.
use picture_stage.Base.{◌≡◌, refl, false, [], ◌∷◌, ◌==◌}
use picture_stage.Base.Results.{err}
use picture_stage.Examples.{database, charged, preview_key}
use picture_stage.Gallery.Removal.ByOwner.{not_found, delete_gallery}
use picture_stage.Gallery.Removal.{delete_storage_keys, cleanup_incomplete}

delete_storage_keys_fails :
    delete_storage_keys (λ k. k == 701) (702 ∷ 701 ∷ 700 ∷ []) charged
    ≡ err (cleanup_incomplete (701 ∷ []))
unfolding delete_storage_keys
delete_storage_keys_fails = refl

not_the_owner : delete_gallery preview_key (λ _. false) 5 2 database charged ≡ err not_found
unfolding delete_gallery
not_the_owner = refl
