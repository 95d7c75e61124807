-- ===== src/Guest/Review/Events.antt =====
-- When `create_selection_event` of app/guest/router.py writes, and what.
use picture_stage.Base.{ℕ, ◌<◌, ◌≡◌, inl, inr, Option, some, Bytes, arith, Option-cases}
use picture_stage.Base.Results.{ok, Result-cases}
use picture_stage.Models.{Gallery, shared, ShareSession, Database, Crypto}
use picture_stage.Selections.{assert_selection_budget, retained_events}
use picture_stage.Guest.Access.{lock_gallery_for_review, current_share_session}
use picture_stage.Guest.Access.Gate.{
  IsOpen, lock_gallery_for_review-IsOpen, IsGrant, current_share_session-IsGrant,
}
use picture_stage.Guest.Review.{
  EventBody, create_selection_event, insert_behind_lock, new_event, insert_event,
}

-- What is true when an event is accepted, of the database that it is written to.
pub record IsAccepted (c : Crypto) (max_events : ℕ) (token : Bytes) (gallery : ℕ)
    (session : Option ℕ) (b : EventBody) (now : ℕ) (db db' : Database) : Type 0 where
  pub g : Gallery
  pub s : ShareSession
  pub access : IsOpen c token gallery now db g
  pub in_review : g.status ≡ shared
  pub current : current_share_session g session now db ≡ some s
  pub grant : IsGrant g now s
  pub room : retained_events gallery db < max_events
  pub written : db' ≡ insert_event (new_event b s now db) db

insert-IsAccepted :
    (c : Crypto) (max_events : ℕ) (token : Bytes) (gallery : ℕ) (session : Option ℕ) (b : EventBody)
    (now : ℕ) (db : Database) {db' : Database}
    → insert_behind_lock c max_events token gallery session b now db ≡ ok db'
    → IsAccepted c max_events token gallery session b now db db'
unfolding insert_behind_lock assert_selection_budget
insert-IsAccepted c max_events token gallery session b now db e =
    elim (Result-cases (lock_gallery_for_review c token gallery now db)) [
      | inr (x, refused) ↦ cc (rw (refused, insert_behind_lock) at e)
      | inl (g, locked) ↦ elim (Option-cases (current_share_session g session now db)) [
        | inl absent ↦ ground arith
        | inr (s, there) ↦
            let access = lock_gallery_for_review-IsOpen c token gallery now db locked in
            record {
              g = g;
              s = s;
              access = access;
              in_review = ground (arith, access.reachable);
              current = there;
              grant = current_share_session-IsGrant g session now db there;
              room = ground (arith, access.same_id);
              written = ground arith;
            }
      ]
    ]

module _ (c : Crypto) (max_events : ℕ) (token : Bytes) (resolved : Gallery) (session : Option ℕ)
    (b : EventBody) (now : ℕ) (fenced db : Database) where
  pub create_selection_event-IsAccepted :
      {db' : Database}
      → create_selection_event c max_events token resolved session b now fenced db ≡ ok db'
      → IsAccepted c max_events token resolved.id session b now db db'
  unfolding create_selection_event
  create_selection_event-IsAccepted e =
      insert-IsAccepted c max_events token resolved.id session b now db (ground arith)
