-- ===== src/Gallery/Status/Tests.antt =====
-- The life cycle at work.
use picture_stage.Base.{◌≡◌, refl}
use picture_stage.Base.Results.{err}
use picture_stage.Models.{completed, archived}
use picture_stage.Examples.{open_gallery}
use picture_stage.Gallery.Status.Defs.{change_gallery_status, no_transition}
use picture_stage.Gallery.Status.Graph.{Outcome, change_gallery_status-Outcome}

change_gallery_status-Outcome_example :
    Outcome open_gallery completed (change_gallery_status open_gallery completed)
change_gallery_status-Outcome_example = change_gallery_status-Outcome open_gallery completed

change_gallery_status_skips : change_gallery_status open_gallery archived ≡ err no_transition
unfolding change_gallery_status
change_gallery_status_skips = refl
