-- ===== src/Guest/Sessions/Refusals.antt =====
-- When the lock and the password of a gallery refuse a guest, and which session a cookie names.
use picture_stage.Base.{
  ℕ, ◌≡◌, refl, ◌⊎◌, inl, inr, Bool, true, Option, none, some, Bytes, arith, Bool-cases,
  Option-cases, List, [], ◌∷◌, false, ap, find_where, find_where-test, find_where-none,
  find_where-any, any,
}
use picture_stage.Base.Results.{ok, err}
use picture_stage.Models.{Gallery, ShareSession, Database, Crypto, gallery_is}
use picture_stage.Guest.Access.{
  Error, gallery_not_found, link_expired, invalid_password, is_gallery_expired,
  check_gallery_accessible, accepts_token, is_open_to_guests, is_current, lock_gallery_for_review,
  current_share_session,
}
use picture_stage.Guest.Access.Gate.{IsOpen}
use picture_stage.Guest.Sessions.{check_password, reusable}

-- The password that a grant rests on.
abbrev pub HasMatched : Crypto → Option Bytes → Gallery → Type 0
HasMatched c password g =
    ((g.password_hash ≡ none) × (password ≡ none))
    ⊎ ((p h : Bytes) × (password ≡ some p) × (g.password_hash ≡ some h) × (c.checkpw p h ≡ true))

pub check_password-HasMatched :
    (c : Crypto) (password : Option Bytes) (g : Gallery) {u : Unit {0}}
    → check_password c password g ≡ ok u
    → HasMatched c password g
unfolding check_password
check_password-HasMatched c none g e = elim (Option-cases g.password_hash) [
  | inl open_gallery ↦ inl (open_gallery, refl)
  | inr (h, has) ↦ ground arith
]
check_password-HasMatched c (some p) g e = elim (Option-cases g.password_hash) [
  | inl open_gallery ↦ ground arith
  | inr (h, has) ↦ inr (p, h, refl, has, ground arith)
]

pub check_password-refuses :
    (c : Crypto) (password : Option Bytes) (g : Gallery) {e : Error}
    → check_password c password g ≡ err e
    → (e ≡ invalid_password) × ¬ HasMatched c password g
unfolding check_password
check_password-refuses c none g e = elim (Option-cases g.password_hash) [
  | inl open_gallery ↦ let passed = rw open_gallery at e in cc
  | inr (h, has) ↦
      (ground (arith, has, e), λ m. elim m [ inl (free, _) ↦ cc | inr (p, _, given, _, _) ↦ cc ])
]
check_password-refuses c (some p) g e = elim (Option-cases g.password_hash) [
  | inl open_gallery ↦ (
    ground (arith, open_gallery, e),
    λ m. elim m [ inl (_, nothing) ↦ cc | inr (_, h, _, has, _) ↦ cc ],
  )
  | inr (h, has) ↦ elim (Bool-cases (c.checkpw p h)) [
    | inl right ↦ let passed = rw (has, right) at e in cc
    | inr wrong ↦ (
      ground (arith, has, wrong, e),
      λ m. elim m [
        | inl (free, _) ↦ cc
        | inr (p1, h1, given, has1, right) ↦ ground (arith, has, wrong, given, has1, right)
      ],
    )
  ]
]

pub reusable_lem :
    (cookie : Option ℕ) (g : Gallery) (now : ℕ) (db : Database) {s : ShareSession}
    → reusable cookie g now db ≡ some s
    → (current_share_session g cookie now db ≡ some s) × (s.completed_at ≡ none)
reusable_lem cookie g now db e = ground arith

-- Whether a session is one of those that are stored.
abbrev pub IsAmong : ShareSession → List ShareSession → Type 0
IsAmong s [] = ⊥
IsAmong s (r ∷ rows) = (s ≡ r) ⊎ IsAmong s rows

pub find_where-IsAmong :
    (p : ShareSession → Bool) (rows : List ShareSession) {s : ShareSession}
    → find_where p rows ≡ some s
    → IsAmong s rows
find_where-IsAmong p [] e = cc
find_where-IsAmong p (r ∷ rows) e = elim (Bool-cases (p r)) [
  | inl t ↦ let same = rw t at e in inl cc
  | inr f ↦ inr (find_where-IsAmong p rows (rw f at e))
]

pub current_share_session-IsAmong :
    (cookie : Option ℕ) (g : Gallery) (now : ℕ) (db : Database) {s : ShareSession}
    → current_share_session g cookie now db ≡ some s
    → (cookie ≡ some s.id) × IsAmong s db.share_sessions
unfolding current_share_session
current_share_session-IsAmong none g now db e = cc
current_share_session-IsAmong (some id) g now db {s} e =
    let test = find_where-test (is_current now g id) db.share_sessions e in
    let same : id ≡ s.id = ground (arith, test) in
    (ap some same, find_where-IsAmong (is_current now g id) db.share_sessions e)

-- What the lock refuses with.
pub lock_gallery_for_review-refuses :
    (c : Crypto) (token : Bytes) (gallery now : ℕ) (db : Database) {e : Error}
    → lock_gallery_for_review c token gallery now db ≡ err e
    → (e ≡ gallery_not_found) ⊎ (e ≡ link_expired)
unfolding lock_gallery_for_review check_gallery_accessible
lock_gallery_for_review-refuses c token gallery now db e =
    elim (Option-cases (find_where (gallery_is gallery) db.galleries)) [
      | inl absent ↦ ground (arith, absent, e)
      | inr (row, there) ↦
          elim (Option-cases (find_where (is_open_to_guests gallery db) db.galleries)) [
            | inl closed ↦ ground (arith, there, closed, e)
            | inr (g, open_gallery) ↦ elim (Bool-cases (accepts_token c token g)) [
              | inr wrong ↦ ground (arith, there, open_gallery, wrong, e)
              | inl right ↦ elim (Bool-cases (is_gallery_expired now g)) [
                | inl over ↦ ground (arith, there, open_gallery, right, over, e)
                | inr valid ↦ ground (arith, there, open_gallery, right, valid, e)
              ]
            ]
          ]
    ]

pub any-open :
    (gallery : ℕ) (db : Database) (rows : List Gallery)
    → any (is_open_to_guests gallery db) rows ≡ true
    → any (gallery_is gallery) rows ≡ true
any-open gallery db [] t = cc
any-open gallery db (r ∷ rows) t = ground (arith, t, any-open gallery db rows)

-- Whoever finds the link open passes the lock.
pub IsOpen-lock_gallery_for_review :
    {c : Crypto} {token : Bytes} {gallery now : ℕ} {db : Database} {g : Gallery}
    → IsOpen c token gallery now db g
    → lock_gallery_for_review c token gallery now db ≡ ok g
unfolding lock_gallery_for_review check_gallery_accessible is_gallery_expired accepts_token
IsOpen-lock_gallery_for_review {c} {token} {gallery} {now} {db} {g} access =
    let (h, s, has_hash, has_salt, right) = access.verified in
    let accepted : accepts_token c token g ≡ true = rw (has_hash, has_salt) right in
    let valid : is_gallery_expired now g ≡ false = elim (Option-cases g.expires_at) [
      | inl forever ↦ rw forever refl
      | inr (expiry, ends) ↦
          let later = access.unexpired expiry ends in rw ends (ground (arith, later))
    ] in
    elim (Option-cases (find_where (gallery_is gallery) db.galleries)) [
      | inl absent ↦
          let gone = find_where-none (gallery_is gallery) db.galleries absent in
          let there =
            any-open gallery db db.galleries
              (find_where-any (is_open_to_guests gallery db) db.galleries access.found) in
          cc
      | inr (row, there) ↦ rw (there, access.found, accepted, valid) refl
    ]
