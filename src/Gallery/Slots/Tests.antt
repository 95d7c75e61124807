-- ===== src/Gallery/Slots/Tests.antt =====
-- The gallery limit at work.
use picture_stage.Base.{none}
use picture_stage.Base.Int.{pos}
use picture_stage.Base.Results.{err}
use picture_stage.Base.{◌≡◌, refl}
use picture_stage.Examples.{database}
use picture_stage.Gallery.Slots.{create_gallery, quota_exceeded}
use picture_stage.Gallery.Slots.Limit.{Outcome, create_gallery-Outcome}

create_gallery-Outcome_example :
    Outcome (pos 2) 1 database (create_gallery (pos 2) 6 1 none database)
create_gallery-Outcome_example = create_gallery-Outcome (pos 2) 6 1 none database

create_gallery_full : create_gallery (pos 1) 6 1 none database ≡ err (quota_exceeded (pos 1))
unfolding create_gallery
create_gallery_full = refl
