-- ===== src/Guest/Review/Completion.antt =====
-- What `complete_review` of app/guest/router.py requires, writes and closes.
use picture_stage.Base.{
  ℕ, ◌≡◌, ◌≢◌, inl, inr, Option, none, List, [], ◌∷◌, Bytes, arith, update_where, Option-cases, All,
  All-find_where, ◌∙◌,
}
use picture_stage.Base.Results.{ok, Result-cases}
use picture_stage.Models.{Gallery, shared, ShareSession, Database, Crypto, gallery_is}
use picture_stage.Guest.Access.{lock_gallery_for_review, current_share_session, is_open_to_guests}
use picture_stage.Guest.Access.Gate.{
  IsOpen, lock_gallery_for_review-IsOpen, IsGrant, current_share_session-IsGrant,
}
use picture_stage.Guest.Review.{
  EventBody, complete_review, mark_completed, after_completion, create_selection_event,
}
use picture_stage.Guest.Review.Events.{create_selection_event-IsAccepted}

-- What a successful completion has found and written.
pub record IsCompletion (c : Crypto) (token : Bytes) (gallery : ℕ) (session : Option ℕ) (now : ℕ)
    (db db' : Database) : Type 0 where
  pub g : Gallery
  pub s : ShareSession
  pub access : IsOpen c token gallery now db g
  pub was_shared : g.status ≡ shared
  pub was_uncompleted : s.completed_at ≡ none
  pub grant : IsGrant g now s
  pub written : db' ≡ mark_completed now g s db

-- A review is completed only while it is open, by a current session that has not completed it;
-- then the session carries the time and the gallery is completed.
pub complete_review-IsCompletion :
    (c : Crypto) (token : Bytes) (resolved : Gallery) (session : Option ℕ) (now : ℕ) (db : Database)
    {db' : Database}
    → complete_review c token resolved session now db ≡ ok db'
    → IsCompletion c token resolved.id session now db db'
unfolding complete_review
complete_review-IsCompletion c token resolved session now db e =
    elim (Result-cases (lock_gallery_for_review c token resolved.id now db)) [
      | inr (x, refused) ↦ ground arith
      | inl (g, locked) ↦ elim (Option-cases (current_share_session g session now db)) [
        | inl absent ↦ ground arith
        | inr (s, there) ↦
            let access = lock_gallery_for_review-IsOpen c token resolved.id now db locked in
            record {
              g = g;
              s = s;
              access = access;
              was_shared = ground (arith, access.reachable);
              was_uncompleted = ground arith;
              grant = current_share_session-IsGrant g session now db there;
              written = ground arith;
            }
      ]
    ]

-- No row of the gallery is in review.
abbrev IsClosed : ℕ → Gallery → Type 0
IsClosed gallery g = g.id ≡ gallery → g.status ≢ shared

mark_completed-IsClosed :
    (now gallery : ℕ) (g : Gallery) (s : ShareSession) (db : Database) (rows : List Gallery)
    → g.id ≡ gallery
    → All
        (IsClosed gallery)
        (update_where (gallery_is g.id) (λ x. record x { status = after_completion x.status }) rows)
mark_completed-IsClosed now gallery g s db [] same = tt
mark_completed-IsClosed now gallery g s db (x ∷ rows) same =
    (λ i q. ground arith, mark_completed-IsClosed now gallery g s db rows same)

module _ (c : Crypto) (token : Bytes) (resolved : Gallery) (session : Option ℕ) (now : ℕ)
    (db : Database) {db' : Database}
    (done : complete_review c token resolved session now db ≡ ok db') where
  closed : All (IsClosed resolved.id) db'.galleries
  closed =
      let r = complete_review-IsCompletion c token resolved session now db done in
      rw r.written
        (mark_completed-IsClosed now resolved.id r.g r.s db db.galleries r.access.same_id)

  -- In the database that a completed review leaves, no guest can store a further selection in the
  -- gallery: whatever the token, the session, the time and the database that the fences read.
  pub complete_review-closes :
      (max_events : ℕ) (token' : Bytes) (again : Gallery) (session' : Option ℕ) (b : EventBody)
      (later : ℕ) (fenced db'' : Database)
      → again.id ≡ resolved.id
      → create_selection_event c max_events token' again session' b later fenced db' ≢ ok db''
  complete_review-closes max_events token' again session' b later fenced db'' same e =
      let r =
        create_selection_event-IsAccepted c max_events token' again session' b later fenced db' e in
      All-find_where (IsClosed resolved.id) (is_open_to_guests again.id db') db'.galleries closed
        r.access.found (r.access.same_id ∙ same) r.in_review
