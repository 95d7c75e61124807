-- ===== src/Guest/Sessions/Tests.antt =====
-- Visits to one gallery: a new one, and the reclamation of an old one.
use picture_stage.Base.{◌≡◌, refl, false, some, [], ◌∷◌, length, filter, arith}
use picture_stage.Base.Results.{ok}
use picture_stage.Examples.{plain, open_gallery, visit, database}
use picture_stage.Gallery.Share.{verify_token}
use picture_stage.Guest.Access.{lock_gallery_for_review, accepts_token, current_share_session}
use picture_stage.Guest.Sessions.{
  Limits, create_share_session, cleanup_expired_share_sessions, new_session,
}
use picture_stage.Guest.Sessions.Cleanup.{is_protected, cleanup-protected}
use picture_stage.Guest.Sessions.Admission.{Outcome, create_share_session-Outcome}

abbrev limits : Limits
limits = record { max_share_sessions_per_gallery = 2; share_session_ttl_seconds = 60 }

new_visit :
    (create_share_session plain limits
      (λ _. false)
      (7 ∷ [])
      5
      (some (9 ∷ []))
      (some (some 99))
      31
      500
      database).0
    ≡ ok (open_gallery, new_session limits 31 500 open_gallery)
unfolding create_share_session lock_gallery_for_review accepts_token verify_token
    current_share_session
new_visit = refl

same_visit :
    create_share_session plain limits
      (λ _. false)
      (7 ∷ [])
      5
      (some (9 ∷ []))
      (some (some 30))
      31
      500
      database
    ≡ (ok (open_gallery, visit), database)
unfolding create_share_session lock_gallery_for_review accepts_token verify_token
    current_share_session
same_visit = refl

old_visit_is_reclaimed :
    length (cleanup_expired_share_sessions (λ _. false) 5 1000 database).share_sessions ≡ 0
unfolding cleanup_expired_share_sessions
old_visit_is_reclaimed = refl

create_share_session-Outcome_example :
    Outcome plain limits (7 ∷ []) 5 (some (9 ∷ [])) (some (some 99)) 500 database (
      create_share_session plain limits
        (λ _. false)
        (7 ∷ [])
        5
        (some (9 ∷ []))
        (some (some 99))
        31
        500
        database)
create_share_session-Outcome_example =
    create_share_session-Outcome plain limits (λ _. false) (7 ∷ []) 5 (some (9 ∷ [])) 31 500
      database (omega arith) (some (some 99))

cleanup-protected_example :
    filter
      (is_protected 1000 database)
      (cleanup_expired_share_sessions (λ _. false) 5 1000 database).share_sessions
    ≡ []
cleanup-protected_example = cleanup-protected (λ _. false) 5 1000 database
