-- ===== src/Gallery/Share.antt =====
-- The owner's credential commands of app/galleries/management.py with the locked read of
-- app/galleries/authorization.py, and the share handlers of app/galleries/sharing.py. A handler is
-- one transaction: it returns the committed database, or raises and leaves it as it was. The new
-- token, its salt and the hash of a password are drawn or computed outside the database, so they
-- are arguments.
pub mod Credentials
pub mod Handlers
mod Tests
use picture_stage.Base.{
  ℕ, ◌+◌, suc, ◌++◌, Bool, ◌&&◌, Option, none, some, List, find_where, update_where, Bytes,
  bytes_eq, ◌==◌, if◌then◌else◌, is_some, is_filled,
}
use picture_stage.Base.Results.{Result, ok, err, or_raise, ◌>>=◌, ◌>>◌}
use picture_stage.Models.{
  GalleryStatus, draft, shared, completed, archived, Gallery, Database, Crypto, gallery_is,
}
use picture_stage.Gallery.Status.{Error, not_found}

-- `hash_token` and `verify_token` of app/auth/passwords.py
unfoldable pub hash_token : Crypto → Bytes → Bytes → Bytes × Bytes
hash_token c token salt = (c.sha256 (token ++ salt), salt)

unfoldable pub verify_token : Crypto → Bytes → Bytes → Bytes → Bool
verify_token c token token_hash token_salt = bytes_eq (c.sha256 (token ++ token_salt)) token_hash

-- `token_locator` of app/auth/token_lookup.py
unfoldable pub token_locator : Crypto → Bytes → Bytes
token_locator c token = c.sha256 token

abbrev pub is_owned : ℕ → ℕ → Gallery → Bool
is_owned gallery owner g = g.id == gallery && g.owner_id == owner

-- `get_owned_gallery`, and `lock_owned_gallery_authorization` once its locks are held.
unfoldable pub get_owned_gallery : ℕ → ℕ → Database → Result Error Gallery
get_owned_gallery gallery owner db =
    or_raise (find_where (is_owned gallery owner) db.galleries) not_found

abbrev pub write_gallery : ℕ → (Gallery → Gallery) → Database → Database
write_gallery gallery f db = record db {
  galleries = update_where (gallery_is gallery) f db.galleries;
}

abbrev after_sharing : GalleryStatus → GalleryStatus
after_sharing draft = shared
after_sharing s = s

abbrev after_revoking : GalleryStatus → GalleryStatus
after_revoking shared = draft
after_revoking s = s

-- The assignments of `create_gallery_share`.
unfoldable pub with_share : Crypto → Bytes → Bytes → Option Bytes → Gallery → Gallery
unfolding hash_token token_locator
with_share c token salt password_hash g =
    let (token_hash, token_salt) = hash_token c token salt in
    record g {
      authorization_epoch = g.authorization_epoch + 1;
      share_token_hash = some token_hash;
      share_token_salt = some token_salt;
      share_token = some token;
      share_token_lookup = some (token_locator c token);
      password_hash = password_hash;
      status = after_sharing g.status;
    }

-- The assignments of `revoke_gallery_share`.
unfoldable pub without_share : Gallery → Gallery
without_share g = record g {
  authorization_epoch = g.authorization_epoch + 1;
  share_token_hash = none;
  share_token_salt = none;
  share_token = none;
  share_token_lookup = none;
  password_hash = none;
  status = after_revoking g.status;
}

-- The assignments of `update_gallery_password`.
unfoldable pub with_password : Option Bytes → Gallery → Gallery
with_password password_hash g = record g {
  password_hash = password_hash;
  authorization_epoch = g.authorization_epoch + 1;
}

-- A command on the credentials of an owned gallery.
pub data Command : Type 0 where
  create : Bytes → Bytes → Option Bytes → Command
  revoke : Command
  set_password : Option Bytes → Command

unfoldable pub apply_command : Crypto → Command → Gallery → Gallery
unfolding with_share without_share with_password
apply_command c (create token salt password_hash) = with_share c token salt password_hash
apply_command c revoke = without_share
apply_command c (set_password password_hash) = with_password password_hash

-- `create_gallery_share`, `revoke_gallery_share` and `update_gallery_password`, by the command,
-- each with its commit.
unfoldable pub run_command : Crypto → Command → ℕ → ℕ → Database → Result Error (Gallery × Database)
unfolding get_owned_gallery apply_command
run_command c command gallery owner db = do
  g ← get_owned_gallery gallery owner db
  ok (apply_command c command g, write_gallery gallery (apply_command c command) db)

pub record ShareResponse : Type 0 where
  pub token : Bytes
  pub has_password : Bool

-- `hash_gallery_password(body.password) if body.password else None`
unfoldable pub hash_if_filled : Crypto → Option Bytes → Option Bytes
hash_if_filled c none = none
hash_if_filled c (some password) =
    if is_filled (some password) then some (c.hashpw password) else none

-- `create_share_link`: the body's password, the new token and its salt.
unfoldable pub create_share_link :
    Crypto
    → Option Bytes
    → Bytes
    → Bytes
    → ℕ
    → ℕ
    → Database
    → Result Error (ShareResponse × Gallery × Database)
unfolding run_command hash_if_filled
create_share_link c password token salt gallery owner db = do
  get_owned_gallery gallery owner db
  (g, db') ← run_command c (create token salt (hash_if_filled c password)) gallery owner db
  ok (record { token = token; has_password = is_some password }, g, db')
