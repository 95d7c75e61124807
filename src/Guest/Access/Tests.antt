-- ===== src/Guest/Access/Tests.antt =====
-- One guest with a session of a gallery that has a password.
use picture_stage.Base.{◌≡◌, refl, ◌⊎◌, none, some, [], ◌∷◌, arith}
use picture_stage.Base.Results.{ok, err}
use picture_stage.Models.{Gallery, ShareSession, Database}
use picture_stage.Examples.{plain, open_gallery, database}
use picture_stage.Gallery.Share.{revoke, apply_command, run_command, write_gallery, verify_token}
use picture_stage.Guest.Access.{
  require_gallery_read_access, lock_gallery_for_review, current_share_session, no_active_session,
  accepts_token, require_session,
}
use picture_stage.Guest.Access.Gate.{IsOpen, IsGrant, require_gallery_read_access_safe}
use picture_stage.Guest.Access.Revocation.{EpochsBounded, run_command-revokes}

guest_reads : require_gallery_read_access plain (7 ∷ []) 5 (some 30) 900 database ≡ ok open_gallery
unfolding require_gallery_read_access lock_gallery_for_review current_share_session accepts_token
    verify_token require_session
guest_reads = refl

guest_without_session :
    require_gallery_read_access plain (7 ∷ []) 5 none 900 database ≡ err no_active_session
unfolding require_gallery_read_access lock_gallery_for_review current_share_session accepts_token
    verify_token require_session
guest_without_session = refl

require_gallery_read_access_safe_example :
    IsOpen plain (7 ∷ []) 5 900 database open_gallery
    × ((open_gallery.password_hash ≡ none)
        ⊎ ((s : ShareSession) × (current_share_session open_gallery (some 30) 900 database ≡ some s)
            × IsGrant open_gallery 900 s))
require_gallery_read_access_safe_example =
    require_gallery_read_access_safe plain (7 ∷ []) 5 (some 30) 900 database guest_reads

gallery_locked : lock_gallery_for_review plain (7 ∷ []) 5 900 database ≡ ok open_gallery
unfolding lock_gallery_for_review accepts_token verify_token
gallery_locked = refl

database-EpochsBounded : EpochsBounded database
database-EpochsBounded = ground arith

abbrev revoked : Gallery × Database
revoked =
    (apply_command plain revoke open_gallery, write_gallery 5 (apply_command plain revoke) database)

owner_revokes : run_command plain revoke 5 1 database ≡ ok revoked
unfolding run_command
owner_revokes = refl

run_command-revokes_example : current_share_session revoked.0 (some 30) 900 revoked.1 ≡ none
run_command-revokes_example =
    run_command-revokes plain revoke 5 1 database database-EpochsBounded owner_revokes (some 30) 900
