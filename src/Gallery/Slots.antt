-- ===== src/Gallery/Slots.antt =====
-- app/galleries/quota.py and the creation of a gallery in app/galleries/router.py: how many
-- galleries an owner may have. The limit is the user's override, or else the global setting, and
-- a limit of zero or below means unlimited.
pub mod Limit
mod Tests
use picture_stage.Base.{
  ℕ, ◌+◌, suc, Bool, Option, none, some, List, [], ◌∷◌, find_where, count_where, ◌==◌,
  if◌then◌else◌, is_some,
}
use picture_stage.Base.Int.{ℤ, pos, leb_ℤ}
use picture_stage.Base.Results.{Result, ok, err, raise_if, ◌>>=◌, ◌>>◌}
use picture_stage.Models.{Gallery, User, Database, DateTime, draft, user_is}

-- `GalleryQuotaExceeded`, with the limit.
pub data Error : Type 0 where
  quota_exceeded : ℤ → Error

unfoldable pub get_gallery_limit : ℤ → Option ℤ → ℤ
get_gallery_limit max_galleries_per_user none = max_galleries_per_user
get_gallery_limit max_galleries_per_user (some override) = override

abbrev pub owned_galleries : ℕ → Database → ℕ
owned_galleries owner db = count_where (λ g. g.owner_id == owner) db.galleries

unfoldable pub assert_within_gallery_quota : ℤ → ℕ → Option ℤ → Database → Result Error (Unit {0})
unfolding get_gallery_limit
assert_within_gallery_quota setting owner override db =
    let limit = get_gallery_limit setting override in
    if leb_ℤ limit (pos 0)
    then ok tt
    else raise_if (leb_ℤ limit (pos (owned_galleries owner db))) (quota_exceeded limit)

-- The override of a user; an absent user reads as NULL.
abbrev pub override_of : ℕ → Database → Option ℤ
override_of owner db = elim (find_where (user_is owner) db.users) [
  | none ↦ none
  | some u ↦ u.gallery_limit_override
]

unfoldable pub reserve_gallery_slot : ℤ → ℕ → Database → Result Error (Unit {0})
unfolding assert_within_gallery_quota
reserve_gallery_slot setting owner db =
    assert_within_gallery_quota setting owner (override_of owner db) db

-- The row that `create_gallery` inserts, and that `duplicate_gallery` inserts for its copy.
abbrev pub new_gallery : ℕ → ℕ → Option DateTime → Gallery
new_gallery id owner expires_at = record {
  id = id;
  owner_id = owner;
  status = draft;
  share_token_hash = none;
  share_token_salt = none;
  share_token = none;
  share_token_lookup = none;
  password_hash = none;
  expires_at = expires_at;
  authorization_epoch = 0;
}

unfoldable pub create_gallery :
    ℤ → ℕ → ℕ → Option DateTime → Database → Result Error (Gallery × Database)
unfolding reserve_gallery_slot
create_gallery setting id owner expires_at db = do
  reserve_gallery_slot setting owner db
  ok (
    new_gallery id owner expires_at,
    record db { galleries = new_gallery id owner expires_at ∷ db.galleries },
  )
