-- ===== src/Gallery/Status/Defs.antt =====
-- `change_gallery_status` of app/galleries/management.py.
use picture_stage.Base.{Bool, true, false, not, is_none, ◌&&◌, if◌then◌else◌}
use picture_stage.Base.Results.{Result, ok, raise_if, ◌>>◌}
use picture_stage.Models.{
  GalleryStatus, draft, shared, completed, archived, allowed_transition, Gallery,
}

-- The HTTP errors of app/galleries: 404, and two of 409.
pub data Error : Type 0 where
  not_found no_transition no_share_link : Error

abbrev pub status_eq : GalleryStatus → GalleryStatus → Bool
status_eq draft draft = true
status_eq shared shared = true
status_eq completed completed = true
status_eq archived archived = true
status_eq _ _ = false

abbrev is_shared : GalleryStatus → Bool
is_shared shared = true
is_shared _ = false

-- The gallery after the call, and whether the change needs a commit.
unfoldable pub change_gallery_status : Gallery → GalleryStatus → Result Error (Gallery × Bool)
change_gallery_status g target = if status_eq target g.status then ok (g, false) else do
  raise_if (not (allowed_transition g.status target)) no_transition
  raise_if (is_shared target && is_none g.share_token_hash) no_share_link
  ok (record g { status = target }, true)
