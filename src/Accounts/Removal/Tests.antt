-- ===== src/Accounts/Removal/Tests.antt =====
-- The deletion of the owner's account at work.
use picture_stage.Base.{
  ◌==◌, ◌&&◌, ◌||◌, true, if◌then◌else◌, ◌≡◌, refl, ap, false, none, some, [], ◌∷◌,
}
use picture_stage.Base.Results.{Result, ok, err}
use picture_stage.Models.{Database}
use picture_stage.Storage.Quota.{Tables, Allocation}
use picture_stage.Examples.{
  open_gallery, staffed, charged, charged-IsBalanced, preview_key, administrator,
}
use picture_stage.Storage.Quota.{release, no_usage}
use picture_stage.Gallery.Removal.{purge_gallery, cleanup_incomplete}
use picture_stage.Accounts.Admin.{admin_audit}
use picture_stage.Accounts.Removal.{Error, delete_user, cleanup}
use picture_stage.Accounts.Removal.Finished.{IsRemoved}
use picture_stage.Accounts.Removal.Removed.{delete_user-IsRemoved}

abbrev emptied : Database × Tables
emptied = (
  record staffed {
    users = administrator ∷ [];
    galleries = [];
    images = [];
    share_sessions = [];
    audit_log = admin_audit 2 ∷ [];
    checkpoints = λ g. if g == 5 then none else none;
    current_selections = λ i. if 70 == i && true || false then none else none;
  },
  record {
    usage = λ o. if o == 1 then none else if o == 1 then some no_usage else charged.usage o;
    allocations = [];
  },
)

owner_is_deleted :
    delete_user preview_key (λ _. false) 2 1 staffed charged ≡ (ok emptied.0, emptied.1)
unfolding delete_user purge_gallery release
owner_is_deleted = refl

delete_user-IsRemoved_example :
    IsRemoved 2 1 staffed emptied.0 (delete_user preview_key (λ _. false) 2 1 staffed charged).1
delete_user-IsRemoved_example =
    delete_user-IsRemoved preview_key (λ _. false) 2 1 staffed charged charged-IsBalanced
      (ap (λ (r : Result Error Database × Tables). r.0) owner_is_deleted)

object_left :
    delete_user preview_key (λ k. k == 701) 2 1 staffed charged
    ≡ (err (cleanup (cleanup_incomplete (701 ∷ []))), charged)
unfolding delete_user purge_gallery
object_left = refl

-- A second gallery, with a charge whose object cannot be deleted: the refund of the first one stays.
abbrev two_galleries : Database
two_galleries = record staffed { galleries = record open_gallery { id = 6 } ∷ open_gallery ∷ [] }

abbrev second_charge : Allocation
second_charge = record { key = 800; owner_id = 1; gallery_id = 6; image_id = 80; size = some 5 }

abbrev both_charged : Tables
both_charged = record charged { allocations = second_charge ∷ charged.allocations }

abbrev broken_off : Result Error Database × Tables
broken_off = delete_user preview_key (λ k. k == 800) 2 1 two_galleries both_charged

first_refund_stays :
    (broken_off.0 ≡ err (cleanup (cleanup_incomplete (800 ∷ []))))
    × (broken_off.1.allocations ≡ second_charge ∷ [])
unfolding delete_user purge_gallery release
first_refund_stays = (refl, refl)
