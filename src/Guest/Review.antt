-- ===== src/Guest/Review.antt =====
-- A guest's writes in app/guest/router.py: `create_selection_event` and `complete_review`, and the
-- validation of the request body in app/selections/schemas.py. A handler takes its locks one after
-- the other and reads again behind each, while other transactions may commit in between. So it is
-- given the database that it sees behind each lock: the one behind the lifecycle fences, and the
-- one behind the gallery's row lock, to which it writes.
pub mod Events
pub mod Completion
mod Tests
use picture_stage.Base.{
  ℕ, ◌+◌, suc, Bool, true, false, not, ◌&&◌, Option, none, some, List, [], ◌∷◌, length, any,
  find_where, update_where, Bytes, leb, ltb, ◌==◌, if◌then◌else◌, is_none, is_some,
}
use picture_stage.Base.Results.{Result, ok, err, raise_if, or_raise, ◌>>=◌, ◌>>◌}
use picture_stage.Models.{
  Gallery, GalleryStatus, shared, completed, ShareSession, Image, SelectionAction, select, deselect,
  favorite, unfavorite, comment, SelectionEvent, Database, Crypto, gallery_is, is_completed,
}
use picture_stage.Selections.{project, assert_selection_budget, HistoryFull}
use picture_stage.Gallery.Share.{write_gallery}
use picture_stage.Guest.Access.{
  Error, gallery_not_found, image_not_found, review_completed, no_active_session, session_not_found,
  already_completed, history_limit, check_gallery_accessible, lock_gallery_for_review,
  current_share_session,
}

-- `SelectionEventCreate`, without the session id, which arrives as a credential.
pub record EventBody : Type 0 where
  pub image_id : ℕ
  pub action : SelectionAction
  pub text : Option Bytes

abbrev is_comment : SelectionAction → Bool
is_comment comment = true
is_comment _ = false

-- The two validators of the body: the length of a comment, and that only a comment carries one.
unfoldable pub is_valid_body : ℕ → EventBody → Bool
is_valid_body max_selection_comment_chars b = elim b.text [
  | none ↦ true
  | some t ↦ leb (length t) max_selection_comment_chars && is_comment b.action
]

-- The checks behind the lifecycle fences.
unfoldable pub check_behind_fences : ℕ → ℕ → Option ℕ → ℕ → Database → Result Error (Unit {0})
check_behind_fences gallery image session now db = do
  g ← or_raise (find_where (gallery_is gallery) db.galleries) gallery_not_found
  check_gallery_accessible now g
  raise_if (not (any (λ i. i.id == image && i.gallery_id == g.id) db.images)) image_not_found
  raise_if (is_completed g.status) review_completed
  raise_if (is_none (current_share_session g session now db)) no_active_session

-- The event that is inserted, and its projection in the same transaction.
abbrev pub new_event : EventBody → ShareSession → ℕ → Database → SelectionEvent
new_event b s now db = record {
  id = db.next_event_id;
  image_id = b.image_id;
  share_session_id = s.id;
  action = b.action;
  comment = b.text;
  created_at = now;
}

abbrev pub insert_event : SelectionEvent → Database → Database
insert_event e db = record db {
  selection_events = e ∷ db.selection_events;
  current_selections = project e db.current_selections;
  next_event_id = suc db.next_event_id;
}

-- `except SelectionHistoryFull`
abbrev history_error : Result HistoryFull (Unit {0}) → Result Error (Unit {0})
history_error (ok u) = ok u
history_error (err _) = err history_limit

-- The checks behind the budget and row locks, and the insert.
unfoldable pub insert_behind_lock :
    Crypto → ℕ → Bytes → ℕ → Option ℕ → EventBody → ℕ → Database → Result Error Database
insert_behind_lock c max_events token gallery session b now db = do
  g ← lock_gallery_for_review c token gallery now db
  raise_if (is_completed g.status) review_completed
  s ← or_raise (current_share_session g session now db) no_active_session
  history_error (assert_selection_budget max_events g.id db)
  ok (insert_event (new_event b s now db) db)

-- `create_selection_event`, once its token is resolved to a gallery and its body is valid: the
-- database behind the fences, then the one behind the row lock.
unfoldable pub create_selection_event :
    Crypto
    → ℕ
    → Bytes
    → Gallery
    → Option ℕ
    → EventBody
    → ℕ
    → Database
    → Database
    → Result Error Database
unfolding check_behind_fences insert_behind_lock
create_selection_event c max_events token resolved session b now fenced db = do
  check_gallery_accessible now resolved
  check_behind_fences resolved.id b.image_id session now fenced
  insert_behind_lock c max_events token resolved.id session b now db

abbrev session_is : ℕ → ShareSession → Bool
session_is i s = s.id == i

abbrev complete_session : ℕ → ShareSession → ShareSession
complete_session now s = record s { completed_at = some now }

abbrev after_completion : GalleryStatus → GalleryStatus
after_completion shared = completed
after_completion s = s

-- The assignments of `complete_review`.
abbrev pub mark_completed : ℕ → Gallery → ShareSession → Database → Database
mark_completed now g s db = record db {
  share_sessions = update_where (session_is s.id) (complete_session now) db.share_sessions;
  galleries =
      update_where (gallery_is g.id) (λ x. record x { status = after_completion x.status })
        db.galleries;
}

-- `complete_review`, once its token is resolved. The notification that follows the commit cannot
-- fail the request and writes nothing here.
unfoldable pub complete_review :
    Crypto → Bytes → Gallery → Option ℕ → ℕ → Database → Result Error Database
complete_review c token resolved session now db = do
  check_gallery_accessible now resolved
  g ← lock_gallery_for_review c token resolved.id now db
  s ← or_raise (current_share_session g session now db) session_not_found
  raise_if (is_completed g.status) already_completed
  raise_if (is_some s.completed_at) already_completed
  ok (mark_completed now g s db)
