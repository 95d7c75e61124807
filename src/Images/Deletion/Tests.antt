-- ===== src/Images/Deletion/Tests.antt =====
-- The deletion of the only image of a gallery.
use picture_stage.Base.{ℕ, ◌≡◌, ◌≢◌, refl, any, false, true, [], ◌∷◌}
use picture_stage.Base.Results.{ok, err}
use picture_stage.Models.{Database}
use picture_stage.Examples.{database, charged, charged-IsBalanced, preview_key}
use picture_stage.Storage.Quota.Balance.{IsBalanced}
use picture_stage.Gallery.Share.{is_owned}
use picture_stage.Images.Deletion.{
  Error, image_not_found, gallery_not_found, delete_image, is_listed, bulk_delete_images,
}
use picture_stage.Images.Deletion.Bulk.{bulk_delete_images-Outcome}

missing_image :
    (delete_image preview_key (λ _. false) 5 71 1 database charged).0 ≡ err image_not_found
unfolding delete_image
missing_image = refl

stranger : (delete_image preview_key (λ _. false) 5 70 2 database charged).0 ≡ err gallery_not_found
unfolding delete_image
stranger = refl

bulk_delete_images-Outcome_example :
    IsBalanced (bulk_delete_images preview_key (λ _. false) 5 (70 ∷ []) 1 database charged).1
    × ((db' : Database)
        → (bulk_delete_images preview_key (λ _. false) 5 (70 ∷ []) 1 database charged).0 ≡ ok db'
        → (any (is_owned 5 1) database.galleries ≡ true)
          × (any (is_listed 5 (70 ∷ [])) db'.images ≡ false))
    × (any (is_owned 5 1) database.galleries ≡ true
        → ((k : ℕ) → false ≡ false)
        → (x : Error)
        → (bulk_delete_images preview_key (λ _. false) 5 (70 ∷ []) 1 database charged).0 ≢ err x)
bulk_delete_images-Outcome_example =
    bulk_delete_images-Outcome preview_key (λ _. false) 5 (70 ∷ []) 1 database charged
      charged-IsBalanced
