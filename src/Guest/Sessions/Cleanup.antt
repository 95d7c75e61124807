-- ===== src/Guest/Sessions/Cleanup.antt =====
-- What `cleanup_expired_share_sessions` of app/guest/service.py may remove, and how much.
use picture_stage.Base.{
  ℕ, ◌+◌, ◌≤◌, ◌≡◌, refl, ◌≢◌, inl, inr, Bool, true, false, not, Option, none, some, List, [], ◌∷◌,
  All, map, arith, filter, length, contains, is_none, Bool-cases, ◌==◌, ◌&&◌, length-take, ap, suc,
  count_where, ==_iff,
}
use picture_stage.Models.{ShareSession, Database, Checkpoint}
use picture_stage.Guest.Sessions.{
  cleanup_expired_share_sessions, cleanup_rows, cleanup_window, next_window, is_deleted,
  is_reclaimable, is_after, or_wrap, is_referenced, has_expired, unlocked_ids, cleanup_batch_size,
  order_sessions,
}

-- The rows that a cleanup must keep.
abbrev pub is_protected : ℕ → Database → ShareSession → Bool
is_protected now db s =
    not (has_expired now s && is_none s.completed_at && not (is_referenced db s.id))

deleted-unprotected :
    (candidates : List ℕ) (now : ℕ) (db : Database) (s : ShareSession)
    → is_deleted candidates now db s ≡ true
    → is_protected now db s ≡ false
deleted-unprotected candidates now db s h = ground arith

filter-filter :
    (p q : ShareSession → Bool) (rows : List ShareSession)
    → ((s : ShareSession) → q s ≡ true → p s ≡ false)
    → filter p (filter (λ r. not (q r)) rows) ≡ filter p rows
filter-filter p q [] h = refl
filter-filter p q (s ∷ rows) h = ground (arith, h s, filter-filter p q rows h)

cleanup_rows-protected :
    (locked : ℕ → Bool) (gallery now : ℕ) (db : Database) (window : List ShareSession)
    → filter (is_protected now db) (cleanup_rows locked gallery now db window).share_sessions
      ≡ filter (is_protected now db) db.share_sessions
unfolding cleanup_rows
cleanup_rows-protected locked gallery now db [] = refl
cleanup_rows-protected locked gallery now db (s ∷ window) =
    filter-filter (is_protected now db) (is_deleted (unlocked_ids locked (s ∷ window)) now db)
      db.share_sessions (deleted-unprotected (unlocked_ids locked (s ∷ window)) now db)

-- The reclamation never removes a session that has not expired, that was completed, or that a
-- selection event or an audit entry names: all of these are left, in their order.
pub cleanup-protected :
    (locked : ℕ → Bool) (gallery now : ℕ) (db : Database)
    → filter
        (is_protected now db)
        (cleanup_expired_share_sessions locked gallery now db).share_sessions
      ≡ filter (is_protected now db) db.share_sessions
unfolding cleanup_expired_share_sessions
cleanup-protected locked gallery now db =
    cleanup_rows-protected locked gallery now db
      (next_window (db.checkpoints gallery) gallery now db.share_sessions)

-- Session ids are a primary key.
abbrev pub DistinctIds : List ShareSession → Type 0
DistinctIds [] = Unit
DistinctIds (s ∷ rows) = All (λ (r : ShareSession). s.id ≢ r.id) rows × DistinctIds rows

abbrev is_id : ℕ → ShareSession → Bool
is_id a s = a == s.id

count-is_id_none :
    (a : ℕ) (rows : List ShareSession) → All (λ r. a ≢ r.id) rows → count_where (is_id a) rows ≡ 0
count-is_id_none a [] h = refl
count-is_id_none a (s ∷ rows) h = ground (arith, count-is_id_none a rows h.1, h.0)

count-is_id : (a : ℕ) (rows : List ShareSession) → DistinctIds rows → count_where (is_id a) rows ≤ 1
count-is_id a [] h = omega arith
count-is_id a (s ∷ rows) h = elim (Bool-cases (a == s.id)) [
  | inl same ↦ ground (arith, count-is_id_none s.id rows h.0, (==_iff a s.id).0 same)
  | inr other ↦ ground (arith, count-is_id a rows h.1)
]

count-contains :
    (a : ℕ) (ids : List ℕ) (rows : List ShareSession)
    → count_where (λ s. contains s.id (a ∷ ids)) rows
      ≤ count_where (is_id a) rows + count_where (λ s. contains s.id ids) rows
count-contains a ids [] = omega arith
count-contains a ids (s ∷ rows) = ground (arith, count-contains a ids rows)

count-contains_nil : (rows : List ShareSession) → count_where (λ s. contains s.id []) rows ≡ 0
count-contains_nil [] = refl
count-contains_nil (s ∷ rows) = omega (arith, count-contains_nil rows)

count-contains-le :
    (ids : List ℕ) (rows : List ShareSession)
    → DistinctIds rows
    → count_where (λ s. contains s.id ids) rows ≤ length ids
count-contains-le [] rows h = omega (arith, count-contains_nil rows)
count-contains-le (a ∷ ids) rows h =
    omega (arith, count-contains a ids rows, count-is_id a rows h, count-contains-le ids rows h)

length-filter_deleted :
    (candidates : List ℕ) (now : ℕ) (db : Database) (rows : List ShareSession)
    → length rows
      ≤ length (filter (λ r. not (is_deleted candidates now db r)) rows)
        + count_where (λ s. contains s.id candidates) rows
length-filter_deleted candidates now db [] = omega arith
length-filter_deleted candidates now db (s ∷ rows) =
    ground (arith, length-filter_deleted candidates now db rows)

length-filter : (p : ℕ → Bool) (xs : List ℕ) → length (filter p xs) ≤ length xs
length-filter p [] = omega arith
length-filter p (x ∷ xs) = ground (arith, length-filter p xs)

length-map_id : (rows : List ShareSession) → length (map (λ s. s.id) rows) ≡ length rows
length-map_id [] = refl
length-map_id (s ∷ rows) = ap suc (length-map_id rows)

length-unlocked_ids :
    (locked : ℕ → Bool) (rows : List ShareSession) → length (unlocked_ids locked rows) ≤ length rows
unfolding unlocked_ids
length-unlocked_ids locked rows =
    omega (arith, length-filter (λ i. not (locked i)) (map (λ s. s.id) rows), length-map_id rows)

cleanup_window-le :
    (gallery now : ℕ) (rows : List ShareSession)
    → length (cleanup_window gallery now rows) ≤ cleanup_batch_size
unfolding cleanup_window
cleanup_window-le gallery now rows = omega (
  arith,
  length-take cleanup_batch_size (order_sessions (filter (is_reclaimable gallery now) rows)),
)

or_wrap-le :
    (window start : List ShareSession) (n : ℕ)
    → length window ≤ n
    → length start ≤ n
    → length (or_wrap window start) ≤ n
or_wrap-le [] start n h k = k
or_wrap-le (s ∷ window) start n h k = h

next_window-le :
    (p : Option Checkpoint) (gallery now : ℕ) (rows : List ShareSession)
    → length (next_window p gallery now rows) ≤ cleanup_batch_size
next_window-le none gallery now rows = unfold next_window in cleanup_window-le gallery now rows
next_window-le (some p) gallery now rows =
    unfold next_window in
    or_wrap-le (cleanup_window gallery now (filter (is_after p) rows))
      (cleanup_window gallery now rows) cleanup_batch_size
      (cleanup_window-le gallery now (filter (is_after p) rows))
      (cleanup_window-le gallery now rows)

cleanup_rows-bounded :
    (locked : ℕ → Bool) (gallery now : ℕ) (db : Database) (window : List ShareSession)
    → DistinctIds db.share_sessions
    → length db.share_sessions
      ≤ length (cleanup_rows locked gallery now db window).share_sessions + length window
unfolding cleanup_rows
cleanup_rows-bounded locked gallery now db [] h = omega arith
cleanup_rows-bounded locked gallery now db (s ∷ window) h = omega (
  arith,
  length-filter_deleted (unlocked_ids locked (s ∷ window)) now db db.share_sessions,
  count-contains-le (unlocked_ids locked (s ∷ window)) db.share_sessions h,
  length-unlocked_ids locked (s ∷ window),
)

-- Where session ids are distinct, one reclamation removes at most one batch of sessions.
pub cleanup-bounded :
    (locked : ℕ → Bool) (gallery now : ℕ) (db : Database)
    → DistinctIds db.share_sessions
    → length db.share_sessions
      ≤ length (cleanup_expired_share_sessions locked gallery now db).share_sessions
        + cleanup_batch_size
unfolding cleanup_expired_share_sessions
cleanup-bounded locked gallery now db h = omega (
  arith,
  cleanup_rows-bounded locked gallery now db
      (next_window (db.checkpoints gallery) gallery now db.share_sessions) h,
  next_window-le (db.checkpoints gallery) gallery now db.share_sessions,
)
