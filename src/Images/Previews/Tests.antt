-- ===== src/Images/Previews/Tests.antt =====
-- A processing that breaks off at the second variant, a second one that succeeds, and then the
-- compensation of the first, which finds the image ready.
use picture_stage.Base.{ℕ, ◌≡◌, refl, true, false, Option, some, [], ◌∷◌}
use picture_stage.Models.{PreviewVariant, thumb_sm, thumb_md, preview}
use picture_stage.Images.Upload.{Write, written, broken, acknowledged}
use picture_stage.Images.Previews.{
  pending, Store, Run, Worker, generate, process_image_previews, mark_failed, add_due,
}

abbrev key : PreviewVariant → ℕ
key thumb_sm = 1
key thumb_md = 2
key preview = 3

abbrev fresh : Store
fresh = record {
  image = some (record { processing_status = pending; previews = [] });
  owner_id = some 1;
  stored = λ _. false;
}

abbrev second_breaks : PreviewVariant → Option Write
second_breaks thumb_md = some (broken true)
second_breaks _ = some written

abbrev breaks : Run
breaks = record { original = true; outcome = second_breaks; commit_outcome = acknowledged }

abbrev succeeds : Run
succeeds = record { original = true; outcome = λ _. some written; commit_outcome = acknowledged }

abbrev first : Worker
first = add_due (process_image_previews key breaks fresh) []

abbrev second : Worker
second = add_due (process_image_previews key succeeds first.state) first.due

abbrev third : Worker
third = record { state = mark_failed (λ _. false) true (2 ∷ 1 ∷ []) second.state; due = [] }

broke_off : first.due ≡ (2 ∷ 1 ∷ []) ∷ []
unfolding process_image_previews generate
broke_off = refl

all_stored :
    (third.state.stored 1 ≡ true) × (third.state.stored 2 ≡ true) × (third.state.stored 3 ≡ true)
unfolding process_image_previews mark_failed generate
all_stored = (refl, refl, refl)

abbrev cleaned : Store
cleaned = mark_failed (λ _. false) true (2 ∷ 1 ∷ []) first.state

none_left : (cleaned.stored 1 ≡ false) × (cleaned.stored 2 ≡ false)
unfolding process_image_previews mark_failed generate
none_left = (refl, refl)
