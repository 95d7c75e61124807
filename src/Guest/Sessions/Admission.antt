-- ===== src/Guest/Sessions/Admission.antt =====
-- What `create_share_session` of app/guest/service.py grants, and what it costs.
use picture_stage.Base.{
  ℕ, ◌≤◌, ◌<◌, ◌≡◌, refl, ◌⊎◌, inl, inr, Bool, Option, none, some, Bytes, arith, filter, Bool-cases,
  Option-cases, min, leb, List, ◌∷◌, ap,
}
use picture_stage.Base.Results.{Result, ok, err, Result-cases}
use picture_stage.Models.{Gallery, ShareSession, Database, Crypto}
use picture_stage.Guest.Access.{
  Error, gallery_not_found, link_expired, invalid_password, session_limit, lock_gallery_for_review,
}
use picture_stage.Guest.Access.Gate.{
  IsOpen, lock_gallery_for_review-IsOpen, IsGrant, current_share_session-IsGrant,
}
use picture_stage.Guest.Sessions.Cleanup.{is_protected, cleanup-protected}
use picture_stage.Guest.Sessions.{
  Limits, create_share_session, check_password, open_session, admit_session, reusable,
  retained_sessions, cleanup_expired_share_sessions,
}
use picture_stage.Guest.Sessions.Refusals.{
  HasMatched, IsAmong, check_password-HasMatched, check_password-refuses, reusable_lem,
  current_share_session-IsAmong, lock_gallery_for_review-refuses, IsOpen-lock_gallery_for_review,
}

-- A session that a guest is given: the browser's own, which is stored, and nothing is written, or a
-- new one, which is stored with all that are protected, within the limit.
pub record IsGranted (c : Crypto) (l : Limits) (token : Bytes) (gallery : ℕ)
    (password : Option Bytes) (cookie : Option (Option ℕ)) (now : ℕ) (db db' : Database)
    (g : Gallery) (s : ShareSession) : Type 0 where
  pub access : IsOpen c token gallery now db g
  pub password_matched : HasMatched c password g
  pub grant : IsGrant g now s
  pub uncompleted : s.completed_at ≡ none
  pub stored :
      ((db' ≡ db) × (cookie ≡ some (some s.id)) × IsAmong s db.share_sessions)
      ⊎ ((kept : List ShareSession) × (db'.share_sessions ≡ s ∷ kept)
          × (filter (is_protected now db) kept ≡ filter (is_protected now db) db.share_sessions)
          × (retained_sessions g.id db' ≤ l.max_share_sessions_per_gallery))

-- A gallery that refused a guest who knew its password, and how full it is left.
pub record IsFull (c : Crypto) (l : Limits) (token : Bytes) (gallery : ℕ) (password : Option Bytes)
    (now : ℕ) (db db' : Database) : Type 0 where
  pub g : Gallery
  pub access : IsOpen c token gallery now db g
  pub password_matched : HasMatched c password g
  pub full : l.max_share_sessions_per_gallery ≤ retained_sessions g.id db'
  pub protected_kept :
      filter (is_protected now db) db'.share_sessions
      ≡ filter (is_protected now db) db.share_sessions

-- What a visit must have, by how it ends.
abbrev pub Outcome :
    Crypto
    → Limits
    → Bytes
    → ℕ
    → Option Bytes
    → Option (Option ℕ)
    → ℕ
    → Database
    → Result Error (Gallery × ShareSession) × Database
    → Type 0
Outcome c l token gallery password cookie now db (ok (g, s), db') =
    IsGranted c l token gallery password cookie now db db' g s
Outcome c l token gallery password cookie now db (err session_limit, db') =
    IsFull c l token gallery password now db db'
Outcome c l token gallery password cookie now db (err invalid_password, db') =
    (db' ≡ db) × (g : Gallery) × IsOpen c token gallery now db g × ¬ HasMatched c password g
Outcome c l token gallery password cookie now db (err e, db') =
    (db' ≡ db) × ((g : Gallery) → ¬ IsOpen c token gallery now db g)

module _ (c : Crypto) (l : Limits) (locked : ℕ → Bool) (token : Bytes) (gallery : ℕ)
    (password : Option Bytes) (id now : ℕ) (db : Database)
    (ttl : 0 < l.share_session_ttl_seconds) where
  module _ (g : Gallery) (access : IsOpen c token gallery now db g)
      (matched : HasMatched c password g) where
    abbrev reclaimed : Database
    reclaimed = cleanup_expired_share_sessions locked g.id now db

    admit-Outcome :
        (cookie : Option (Option ℕ))
        → Outcome c l token gallery password cookie now db (admit_session l locked id now g db)
    unfolding admit_session
    admit-Outcome cookie =
        elim (Bool-cases (
          leb l.max_share_sessions_per_gallery
            (min l.max_share_sessions_per_gallery (retained_sessions g.id reclaimed)))) [
              | inl full ↦ rw full (record {
                g = g;
                access = access;
                password_matched = matched;
                full = ground (arith, full);
                protected_kept = cleanup-protected locked g.id now db;
              })
              | inr room ↦ rw room (record {
                access = access;
                password_matched = matched;
                grant = record {
                  same_gallery = refl;
                  same_epoch = refl;
                  unexpired = λ expiry q. ground arith;
                };
                uncompleted = refl;
                stored = inr (
                  reclaimed.share_sessions,
                  refl,
                  cleanup-protected locked g.id now db,
                  ground (arith, room),
                );
              })
            ]

    open-Outcome :
        (cookie : Option (Option ℕ))
        → Outcome c l token gallery password cookie now db
            (open_session l locked id cookie now g db)
    unfolding open_session
    open-Outcome none = admit-Outcome none
    open-Outcome (some cookie) = elim (Option-cases (reusable cookie g now db)) [
      | inl fresh ↦ rw (fresh, open_session) (admit-Outcome (some cookie))
      | inr (s, again) ↦
          let (current, uncompleted) = reusable_lem cookie g now db again in
          let (own, among) = current_share_session-IsAmong cookie g now db current in
          rw (again, open_session)
            (record {
              access = access;
              password_matched = matched;
              grant = current_share_session-IsGrant g cookie now db current;
              uncompleted = uncompleted;
              stored = inl (refl, ap some own, among);
            })
    ]

  refused-Outcome :
      (cookie : Option (Option ℕ)) (e : Error)
      → lock_gallery_for_review c token gallery now db ≡ err e
      → (e ≡ gallery_not_found) ⊎ (e ≡ link_expired)
      → Outcome c l token gallery password cookie now db (err e, db)
  refused-Outcome cookie e refused (inl q) =
      rw q (refl, λ g access. let passed = IsOpen-lock_gallery_for_review access in cc)
  refused-Outcome cookie e refused (inr q) =
      rw q (refl, λ g access. let passed = IsOpen-lock_gallery_for_review access in cc)

  -- Where the lifetime of sessions is above zero: a guest is given a session only behind an open
  -- link and the right password. The session is of
  -- the gallery's present authorization epoch, unexpired and not completed; it is the browser's
  -- own, which is stored, and nothing is written, or it is new, and is stored with all sessions
  -- that are protected, and the gallery retains no more sessions than the limit. A guest is refused
  -- with the limit only behind an open link and the right password, where the gallery still
  -- retains as many sessions as the limit after a reclamation that keeps those that are
  -- protected; for the password only behind an open link and without the right one; and otherwise
  -- only where no link is open to the token. The last two refusals change nothing.
  pub create_share_session-Outcome :
      (cookie : Option (Option ℕ))
      → Outcome c l token gallery password cookie now db
          (create_share_session c l locked token gallery password cookie id now db)
  unfolding create_share_session
  create_share_session-Outcome cookie =
      elim (Result-cases (lock_gallery_for_review c token gallery now db)) [
        | inr (e, refused) ↦
            rw (refused, create_share_session)
              (refused-Outcome cookie e refused
                (lock_gallery_for_review-refuses c token gallery now db refused))
        | inl (g, locked_gallery) ↦
            let access = lock_gallery_for_review-IsOpen c token gallery now db locked_gallery in
            elim (Result-cases (check_password c password g)) [
              | inr (e, refused) ↦
                  let (q, wrong) = check_password-refuses c password g refused in
                  rw (locked_gallery, refused, q, create_share_session) (refl, g, access, wrong)
              | inl (u, right) ↦
                  rw (locked_gallery, right, create_share_session)
                    (open-Outcome g access (check_password-HasMatched c password g right) cookie)
            ]
      ]
