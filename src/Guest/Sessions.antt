-- ===== src/Guest/Sessions.antt =====
-- Opening a guest's session in app/guest/service.py: `create_share_session` with the bounded
-- reclamation of `cleanup_expired_share_sessions`. Both run behind the gallery's admission lock.
-- The id of a new session is drawn outside the database, and `locked` says which session rows
-- other transactions hold, which `skip_locked` passes over.
pub mod Cleanup
pub mod Refusals
pub mod Admission
mod Tests
use picture_stage.Base.{
  ℕ, ◌+◌, ◌*◌, min, Bool, true, false, not, ◌&&◌, ◌||◌, Option, none, some, List, [], ◌∷◌, map,
  filter, any, take, length, count_where, contains, find_where, Bytes, leb, ltb, ◌==◌,
  if◌then◌else◌, is_none, is_some,
}
use picture_stage.Base.Results.{Result, ok, err, raise_if}
use picture_stage.Models.{
  Gallery, ShareSession, SelectionEvent, AuditLog, Checkpoint, Database, Crypto,
}
use picture_stage.Selections.{version_lt}
use picture_stage.Guest.Access.{
  Error, invalid_password, session_limit, lock_gallery_for_review, current_share_session,
}

abbrev pub cleanup_batch_size : ℕ
cleanup_batch_size = 100

-- `(expires_at, id)`, where the query has made sure that there is an expiry.
abbrev pub expiry_key : ShareSession → ℕ × ℕ
expiry_key s = elim s.expires_at [ none ↦ (0, s.id) | some t ↦ (t, s.id) ]

abbrev pub has_expired : ℕ → ShareSession → Bool
has_expired now s = elim s.expires_at [ none ↦ false | some t ↦ leb t now ]

-- The rows that the cleanup window ranges over.
abbrev pub is_reclaimable : ℕ → ℕ → ShareSession → Bool
is_reclaimable gallery now s =
    s.gallery_id == gallery && has_expired now s && is_none s.completed_at

unfoldable pub insert_session : ShareSession → List ShareSession → List ShareSession
insert_session a [] = a ∷ []
insert_session a (b ∷ rows) =
    let rest = insert_session a rows in
    if version_lt (expiry_key b) (expiry_key a) then b ∷ rest else a ∷ b ∷ rows

-- `order_by(expires_at, id)`
unfoldable pub order_sessions : List ShareSession → List ShareSession
unfolding insert_session
order_sessions [] = []
order_sessions (a ∷ rows) = insert_session a (order_sessions rows)

unfoldable pub cleanup_window : ℕ → ℕ → List ShareSession → List ShareSession
unfolding order_sessions
cleanup_window gallery now rows =
    take cleanup_batch_size (order_sessions (filter (is_reclaimable gallery now) rows))

abbrev is_after : Checkpoint → ShareSession → Bool
is_after p s = version_lt (p.last_expires_at, p.last_session_id) (expiry_key s)

-- An empty tail wraps round to the start.
abbrev pub or_wrap : List ShareSession → List ShareSession → List ShareSession
or_wrap [] start = start
or_wrap (s ∷ window) start = s ∷ window

-- The window after the checkpoint, or from the start where that is empty or there is none.
unfoldable pub next_window : Option Checkpoint → ℕ → ℕ → List ShareSession → List ShareSession
unfolding cleanup_window
next_window none gallery now rows = cleanup_window gallery now rows
next_window (some p) gallery now rows =
    or_wrap (cleanup_window gallery now (filter (is_after p) rows))
      (cleanup_window gallery now rows)

unfoldable pub last_key : ShareSession → List ShareSession → Checkpoint
last_key s [] = record { last_expires_at = (expiry_key s).0; last_session_id = s.id }
last_key s (r ∷ rows) = last_key r rows

abbrev pub is_referenced : Database → ℕ → Bool
is_referenced db id =
    any (λ e. e.share_session_id == id) db.selection_events
    || any (λ a. elim a.actor_session_id [ none ↦ false | some i ↦ i == id ]) db.audit_log

-- The DELETE: candidates that are still reclaimable and that no event or audit entry names.
abbrev pub is_deleted : List ℕ → ℕ → Database → ShareSession → Bool
is_deleted candidates now db s =
    contains s.id candidates
    && has_expired now s
    && is_none s.completed_at
    && not (is_referenced db s.id)

unlocked_ids : (ℕ → Bool) → List ShareSession → List ℕ
unlocked_ids locked rows = filter (λ i. not (locked i)) (map (λ s. s.id) rows)

cleanup_rows : (ℕ → Bool) → ℕ → ℕ → Database → List ShareSession → Database
unfolding unlocked_ids last_key
cleanup_rows locked gallery now db [] = db
cleanup_rows locked gallery now db (s ∷ window) = record db {
  share_sessions =
      filter (λ r. not (is_deleted (unlocked_ids locked (s ∷ window)) now db r)) db.share_sessions;
  checkpoints = λ g. if g == gallery then some (last_key s window) else db.checkpoints g;
}

unfoldable pub cleanup_expired_share_sessions : (ℕ → Bool) → ℕ → ℕ → Database → Database
unfolding next_window cleanup_rows
cleanup_expired_share_sessions locked gallery now db =
    cleanup_rows locked gallery now db
      (next_window (db.checkpoints gallery) gallery now db.share_sessions)

pub record Limits : Type 0 where
  pub max_share_sessions_per_gallery : ℕ
  pub share_session_ttl_seconds : ℕ

abbrev pub retained_sessions : ℕ → Database → ℕ
retained_sessions gallery db = count_where (λ s. s.gallery_id == gallery) db.share_sessions

unfoldable pub check_password : Crypto → Option Bytes → Gallery → Result Error (Unit {0})
check_password c password g = elim g.password_hash [
  | none ↦ raise_if (is_some password) invalid_password
  | some h ↦ elim password [
    | none ↦ err invalid_password
    | some p ↦ raise_if (not (c.checkpw p h)) invalid_password
  ]
]

abbrev pub new_session : Limits → ℕ → ℕ → Gallery → ShareSession
new_session l id now g = record {
  id = id;
  gallery_id = g.id;
  authorization_epoch = g.authorization_epoch;
  completed_at = none;
  expires_at = some (now + l.share_session_ttl_seconds * 1000000);
}

-- The admission after the password: reclaim, count, and insert. A full gallery still commits what
-- was reclaimed.
admit_session :
    Limits
    → (ℕ → Bool)
    → ℕ
    → ℕ
    → Gallery
    → Database
    → Result Error (Gallery × ShareSession) × Database
unfolding cleanup_expired_share_sessions
admit_session l locked id now g db =
    let db' = cleanup_expired_share_sessions locked g.id now db in
    let m = l.max_share_sessions_per_gallery in
    if leb m (min m (retained_sessions g.id db')) then (err session_limit, db') else (
      ok (g, new_session l id now g),
      record db' { share_sessions = new_session l id now g ∷ db'.share_sessions },
    )

-- A visit of the browser's cookie that is still current and not completed.
abbrev reusable : Option ℕ → Gallery → ℕ → Database → Option ShareSession
reusable cookie g now db = elim (current_share_session g cookie now db) [
  | none ↦ none
  | some s ↦ if is_none s.completed_at then some s else none
]

open_session :
    Limits
    → (ℕ → Bool)
    → ℕ
    → Option (Option ℕ)
    → ℕ
    → Gallery
    → Database
    → Result Error (Gallery × ShareSession) × Database
unfolding admit_session current_share_session
open_session l locked id none now g db = admit_session l locked id now g db
open_session l locked id (some cookie) now g db = elim (reusable cookie g now db) [
  | none ↦ admit_session l locked id now g db
  | some s ↦ (ok (g, s), db)
]

-- `create_share_session`. `cookie` is present where a browser session may be reused, with the
-- session id that the request's cookie carries, if any.
unfoldable pub create_share_session :
    Crypto
    → Limits
    → (ℕ → Bool)
    → Bytes
    → ℕ
    → Option Bytes
    → Option (Option ℕ)
    → ℕ
    → ℕ
    → Database
    → Result Error (Gallery × ShareSession) × Database
unfolding check_password open_session
create_share_session c l locked token gallery password cookie id now db =
    elim (lock_gallery_for_review c token gallery now db) [
      | err e ↦ (err e, db)
      | ok g ↦ elim (check_password c password g) [
        | err e ↦ (err e, db)
        | ok _ ↦ open_session l locked id cookie now g db
      ]
    ]
