-- ===== src/Images/Upload/Tests.antt =====
-- A batch of one picture whose second write breaks, and whose recovery removes the first.
use picture_stage.Base.{ℕ, ◌*◌, ◌≡◌, refl, true, false, [], ◌∷◌}
use picture_stage.Base.Results.{ok, err}
use picture_stage.Examples.{preview_key}
use picture_stage.Gallery.Removal.{canonical_preview_keys}
use picture_stage.Images.Upload.{
  UploadPlan, jpeg, other_type, unsupported_type, for_file, Batch, enter, written, broken, upload,
  recover, deleted, removable_keys, Reachable, here, after, uploads,
}
use picture_stage.Images.Upload.Owned.{IsOwned, is_of_image}
use picture_stage.Images.Upload.Steps.{Reachable-IsOwned, recover_complete}

abbrev plan : UploadPlan
plan = record { image_id = 7; original_key = 70; keys = 70 ∷ 71 ∷ 72 ∷ 73 ∷ [] }

planned : for_file preview_key (λ _ image _. image * 10) 5 7 jpeg true ≡ ok plan
unfolding for_file canonical_preview_keys
planned = refl

text_is_refused :
    for_file preview_key (λ _ image _. image * 10) 5 7 other_type true ≡ err unsupported_type
unfolding for_file
text_is_refused = refl

-- After the original and a preview whose write raised with the object in place.
abbrev broken_off : Batch
broken_off = upload 71 (broken true) (upload 70 written (enter (plan ∷ [])))

breaks_off : Reachable (enter (plan ∷ [])) broken_off
unfolding upload enter
breaks_off = after (after here (uploads 70 written refl)) (uploads 71 (broken true) refl)

both_removed : removable_keys broken_off ≡ 70 ∷ 71 ∷ []
unfolding removable_keys upload enter
both_removed = refl

Reachable-IsOwned_example : IsOwned broken_off
Reachable-IsOwned_example = Reachable-IsOwned (plan ∷ []) breaks_off

recover_complete_example :
    ((recover (deleted (λ _. false) true) broken_off).intent ≡ false)
    × ((k : ℕ)
        → (recover (deleted (λ _. false) true) broken_off).stored k ≡ true
        → is_of_image broken_off k ≡ true)
unfolding removable_keys upload enter
recover_complete_example =
    recover_complete broken_off (λ _. false) (Reachable-IsOwned (plan ∷ []) breaks_off) refl
