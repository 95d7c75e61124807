-- ===== src/Guest/Access.antt =====
-- Who may see a shared gallery: `lock_gallery_for_review`, `current_share_session`,
-- `is_gallery_expired` and `require_gallery_read_access` of app/guest/service.py. The locks order
-- transactions; what a function reads after its locks is the database that it is given.
pub mod Gate
pub mod Revocation
mod Tests
use picture_stage.Base.{
  ℕ, Bool, true, false, not, ◌&&◌, ◌||◌, Option, none, some, List, any, find_where, Bytes, ltb,
  ◌==◌, if◌then◌else◌, is_none,
}
use picture_stage.Base.Results.{Result, ok, err, raise_if, or_raise, ◌>>=◌, ◌>>◌}
use picture_stage.Models.{
  Gallery, ShareSession, User, DateTime, aware, naive, Database, Crypto, gallery_is, is_reachable,
  is_login_allowed,
}
use picture_stage.Gallery.Share.{verify_token}

-- The HTTP errors of the guest routes: 404 for galleries, images and sessions, 410, 401, 403 for
-- a missing session and for a completed review, and three of 409.
pub data Error : Type 0 where
  gallery_not_found link_expired invalid_password no_active_session : Error
  image_not_found review_completed session_not_found already_completed : Error
  session_limit history_limit : Error

-- `expiry.replace(tzinfo=UTC)` for a time without a zone.
abbrev pub instant : DateTime → ℕ
instant (aware t) = t
instant (naive t) = t

unfoldable pub is_gallery_expired : ℕ → Gallery → Bool
is_gallery_expired now g = elim g.expires_at [
  | none ↦ false
  | some expiry ↦ ltb (instant expiry) now
]

unfoldable pub check_gallery_accessible : ℕ → Gallery → Result Error (Unit {0})
unfolding is_gallery_expired
check_gallery_accessible now g = raise_if (is_gallery_expired now g) link_expired

-- The join with the owner and the two status filters of the guest queries.
abbrev pub has_allowed_owner : Database → Gallery → Bool
has_allowed_owner db g = any (λ u. u.id == g.owner_id && is_login_allowed u.status) db.users

abbrev pub is_open_to_guests : ℕ → Database → Gallery → Bool
is_open_to_guests gallery db g = g.id == gallery && is_reachable g.status && has_allowed_owner db g

-- Whether a token is the one of a gallery's link.
unfoldable pub accepts_token : Crypto → Bytes → Gallery → Bool
accepts_token c token g = elim g.share_token_hash [
  | none ↦ false
  | some h ↦ elim g.share_token_salt [ none ↦ false | some s ↦ verify_token c token h s ]
]

unfoldable pub lock_gallery_for_review : Crypto → Bytes → ℕ → ℕ → Database → Result Error Gallery
unfolding check_gallery_accessible
lock_gallery_for_review c token gallery now db = do
  or_raise (find_where (gallery_is gallery) db.galleries) gallery_not_found
  g ← or_raise (find_where (is_open_to_guests gallery db) db.galleries) gallery_not_found
  raise_if (not (accepts_token c token g)) gallery_not_found
  check_gallery_accessible now g
  ok g

-- `expires_at IS NULL OR expires_at > now`
abbrev pub is_unexpired : ℕ → Option ℕ → Bool
is_unexpired now none = true
is_unexpired now (some expiry) = ltb now expiry

abbrev pub is_current : ℕ → Gallery → ℕ → ShareSession → Bool
is_current now g id s =
    s.id == id
    && s.gallery_id == g.id
    && s.authorization_epoch == g.authorization_epoch
    && is_unexpired now s.expires_at

unfoldable pub current_share_session : Gallery → Option ℕ → ℕ → Database → Option ShareSession
current_share_session g none now db = none
current_share_session g (some id) now db = find_where (is_current now g id) db.share_sessions

-- The part of `require_gallery_read_access` for a gallery with a password.
unfoldable pub require_session : Gallery → Option ℕ → ℕ → Database → Result Error Gallery
unfolding current_share_session
require_session g session now db = do
  raise_if (is_none session) no_active_session
  raise_if (is_none (current_share_session g session now db)) no_active_session
  ok g

-- `require_gallery_read_access`, with the read of `lock_gallery_for_guest_read`.
unfoldable pub require_gallery_read_access :
    Crypto → Bytes → ℕ → Option ℕ → ℕ → Database → Result Error Gallery
require_gallery_read_access c token gallery session now db = do
  g ← lock_gallery_for_review c token gallery now db
  if is_none g.password_hash then ok g else require_session g session now db
