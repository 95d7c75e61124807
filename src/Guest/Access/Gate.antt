-- ===== src/Guest/Access/Gate.antt =====
-- What a guest who is let in has shown, by the checks of app/guest/service.py.
use picture_stage.Base.{
  ℕ, ◌≤◌, ◌<◌, ◌≡◌, ◌⊎◌, inl, inr, true, Option, none, some, Bytes, arith, find_where,
  find_where-test, is_some, Option-cases,
}
use picture_stage.Base.Results.{ok}
use picture_stage.Models.{
  Gallery, ShareSession, Database, Crypto, DateTime, GalleryStatus, shared, completed, is_reachable,
}
use picture_stage.Gallery.Share.{verify_token}
use picture_stage.Guest.Access.{
  lock_gallery_for_review, current_share_session, require_gallery_read_access, require_session,
  accepts_token, is_open_to_guests, is_current, has_allowed_owner, instant,
}

-- What is true of a gallery and of the token when a guest is let in.
pub record IsOpen (c : Crypto) (token : Bytes) (gallery now : ℕ) (db : Database) (g : Gallery)
    : Type 0 where
  pub found : find_where (is_open_to_guests gallery db) db.galleries ≡ some g
  pub same_id : g.id ≡ gallery
  pub reachable : (g.status ≡ shared) ⊎ (g.status ≡ completed)
  pub owner_active : has_allowed_owner db g ≡ true
  pub verified :
      (h s : Bytes) × (g.share_token_hash ≡ some h)
      × (g.share_token_salt ≡ some s)
      × (verify_token c token h s ≡ true)
  pub unexpired : (expiry : DateTime) → g.expires_at ≡ some expiry → now ≤ instant expiry

accepts_token-verified :
    (c : Crypto) (token : Bytes) (g : Gallery)
    → accepts_token c token g ≡ true
    → (h s : Bytes) × (g.share_token_hash ≡ some h)
      × (g.share_token_salt ≡ some s)
      × (verify_token c token h s ≡ true)
unfolding accepts_token
accepts_token-verified c token g t = elim (Option-cases g.share_token_hash) [
  | inl no_hash ↦ ground arith
  | inr (h, has_hash) ↦ elim (Option-cases g.share_token_salt) [
    | inl no_salt ↦ ground arith
    | inr (s, has_salt) ↦ (h, s, has_hash, has_salt, ground arith)
  ]
]

reachable_cases : (s : GalleryStatus) → is_reachable s ≡ true → (s ≡ shared) ⊎ (s ≡ completed)
reachable_cases s h = ground arith

-- A guest passes the lock only at an existing gallery that is shared or completed, whose owner may
-- log in, whose link verifies the guest's token, and whose expiry has not passed.
pub lock_gallery_for_review-IsOpen :
    (c : Crypto) (token : Bytes) (gallery now : ℕ) (db : Database) {g : Gallery}
    → lock_gallery_for_review c token gallery now db ≡ ok g
    → IsOpen c token gallery now db g
unfolding lock_gallery_for_review
lock_gallery_for_review-IsOpen c token gallery now db {g = g} e =
    let found : find_where (is_open_to_guests gallery db) db.galleries ≡ some g = ground arith in
    let test = find_where-test (is_open_to_guests gallery db) db.galleries found in
    record {
      found = found;
      same_id = ground arith;
      reachable = reachable_cases g.status (ground arith);
      owner_active = ground arith;
      verified = accepts_token-verified c token g (ground arith);
      unexpired = λ expiry q. ground arith;
    }

-- A session that is current: the gallery's own, of its present authorization epoch, unexpired.
pub record IsGrant (g : Gallery) (now : ℕ) (s : ShareSession) : Type 0 where
  pub same_gallery : s.gallery_id ≡ g.id
  pub same_epoch : s.authorization_epoch ≡ g.authorization_epoch
  pub unexpired : (expiry : ℕ) → s.expires_at ≡ some expiry → now < expiry

pub current_share_session-IsGrant :
    (g : Gallery) (session : Option ℕ) (now : ℕ) (db : Database) {s : ShareSession}
    → current_share_session g session now db ≡ some s
    → IsGrant g now s
unfolding current_share_session
current_share_session-IsGrant g none now db e = cc
current_share_session-IsGrant g (some id) now db e =
    let test = find_where-test (is_current now g id) db.share_sessions e in
    record {
      same_gallery = ground arith;
      same_epoch = ground arith;
      unexpired = λ expiry q. ground arith;
    }

-- A guest reads a gallery only if its link is open to the token, and, where the gallery has a
-- password, only with a session that was granted for this gallery under its present
-- authorization epoch and has not expired.
pub require_gallery_read_access_safe :
    (c : Crypto) (token : Bytes) (gallery : ℕ) (session : Option ℕ) (now : ℕ) (db : Database)
    {g : Gallery}
    → require_gallery_read_access c token gallery session now db ≡ ok g
    → IsOpen c token gallery now db g
      × ((g.password_hash ≡ none)
          ⊎ ((s : ShareSession) × (current_share_session g session now db ≡ some s)
              × IsGrant g now s))
unfolding require_gallery_read_access require_session
require_gallery_read_access_safe c token gallery session now db {g = g} e = (
  lock_gallery_for_review-IsOpen c token gallery now db (ground arith),
  elim (Option-cases (current_share_session g session now db)) [
    | inl absent ↦ inl (ground arith)
    | inr (s, there) ↦ inr (s, there, current_share_session-IsGrant g session now db there)
  ],
)

-- A guest whose token opens the gallery does get to read it: without a password always, and
-- otherwise with any session that is current.
pub require_gallery_read_access_admits :
    (c : Crypto) (token : Bytes) (gallery : ℕ) (session : Option ℕ) (now : ℕ) (db : Database)
    {g : Gallery}
    → lock_gallery_for_review c token gallery now db ≡ ok g
    → (g.password_hash ≡ none) ⊎ (is_some (current_share_session g session now db) ≡ true)
    → require_gallery_read_access c token gallery session now db ≡ ok g
unfolding require_gallery_read_access require_session
require_gallery_read_access_admits c token gallery none now db e h =
    unfold current_share_session in ground arith
require_gallery_read_access_admits c token gallery (some id) now db e h = ground arith
