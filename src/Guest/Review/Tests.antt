-- ===== src/Guest/Review/Tests.antt =====
-- A guest selects an image and completes the review.
use picture_stage.Base.{◌≡◌, refl, ◌≢◌, none, some, false, [], ◌∷◌}
use picture_stage.Base.Results.{ok}
use picture_stage.Models.{Database, select}
use picture_stage.Examples.{plain, open_gallery, visit, database}
use picture_stage.Gallery.Share.{verify_token}
use picture_stage.Guest.Access.{
  lock_gallery_for_review, accepts_token, current_share_session, check_gallery_accessible,
}
use picture_stage.Guest.Review.{
  EventBody, is_valid_body, create_selection_event, insert_event, new_event, complete_review,
  mark_completed,
}
use picture_stage.Guest.Review.Completion.{complete_review-closes}

abbrev choice : EventBody
choice = record { image_id = 70; action = select; text = none }

comment_on_select_is_invalid : is_valid_body 2000 (record choice { text = some (65 ∷ []) }) ≡ false
unfolding is_valid_body
comment_on_select_is_invalid = refl

abbrev chosen : Database
chosen = insert_event (new_event choice visit 500 database) database

abbrev finished : Database
finished = mark_completed 600 open_gallery visit database

guest_completes : complete_review plain (7 ∷ []) open_gallery (some 30) 600 database ≡ ok finished
unfolding complete_review lock_gallery_for_review accepts_token verify_token current_share_session
    check_gallery_accessible
guest_completes = refl

complete_review-closes_example :
    create_selection_event plain 3 (7 ∷ []) open_gallery (some 30) choice 700 database finished
    ≢ ok chosen
complete_review-closes_example =
    complete_review-closes plain (7 ∷ []) open_gallery (some 30) 600 database guest_completes 3
      (7 ∷ []) open_gallery (some 30) choice 700 database chosen refl
