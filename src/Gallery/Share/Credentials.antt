-- ===== src/Gallery/Share/Credentials.antt =====
-- What the credential commands of app/galleries/management.py keep true of a gallery.
use picture_stage.Base.{
  ℕ, ◌+◌, ◌++◌, ◌≡◌, refl, ◌≢◌, inl, inr, Bool, true, Option, none, some, arith, Bytes,
  bytes_eq_refl, find_where, ◌==◌, find_where-update_where, find_where-test, Option-cases, ==_refl,
  find_where-and, find_where-update_where_ne,
}
use picture_stage.Base.Results.{ok}
use picture_stage.Models.{GalleryStatus, draft, shared, Gallery, Database, Crypto, gallery_is}
use picture_stage.Gallery.Status.{change_gallery_status}
use picture_stage.Gallery.Share.{
  Command, create, revoke, set_password, apply_command, run_command, verify_token, is_owned,
  get_owned_gallery, token_locator, write_gallery,
}

-- The four columns of a share link belong together: all of them are derived from one token and
-- salt, or none is set. A gallery whose status is `shared` has a link.
pub data HasLink (c : Crypto) (g : Gallery) : Type 0 where
  linked :
      (token salt : Bytes)
      → g.share_token ≡ some token
      → g.share_token_salt ≡ some salt
      → g.share_token_hash ≡ some (c.sha256 (token ++ salt))
      → g.share_token_lookup ≡ some (c.sha256 token)
      → HasLink c g
  unlinked :
      g.share_token ≡ none
      → g.share_token_salt ≡ none
      → g.share_token_hash ≡ none
      → g.share_token_lookup ≡ none
      → g.status ≢ shared
      → HasLink c g

module _ (c : Crypto) where
  -- Every credential command keeps the columns of the link together, and a gallery that is shared
  -- with a link.
  pub apply_command-HasLink :
      (command : Command) (g : Gallery) → HasLink c g → HasLink c (apply_command c command g)
  unfolding apply_command
  apply_command-HasLink (create token salt _) g h = linked token salt refl refl refl refl
  apply_command-HasLink revoke g h = unlinked refl refl refl refl (λ e. ground arith)
  apply_command-HasLink (set_password _) g (linked t s a b d e) = linked t s a b d e
  apply_command-HasLink (set_password _) g (unlinked a b d e f) = unlinked a b d e f

  pub change_gallery_status-HasLink :
      (g g' : Gallery) (target : GalleryStatus) (changed : Bool)
      → HasLink c g
      → change_gallery_status g target ≡ ok (g', changed)
      → HasLink c g'
  unfolding change_gallery_status
  change_gallery_status-HasLink g g' target changed (linked t s a b d e) h =
      linked t s (ground arith) (ground arith) (ground arith) (ground arith)
  change_gallery_status-HasLink g g' target changed (unlinked a b d e f) h =
      unlinked (ground arith) (ground arith) (ground arith) (ground arith) (λ q. ground arith)

  -- After a link is created, the stored hash and salt verify the token that was handed out, the
  -- stored locator is the token's, and the gallery is not a draft.
  pub create_verifies :
      (token salt : Bytes) (password_hash : Option Bytes) (g : Gallery)
      → let g' = apply_command c (create token salt password_hash) g in
        (h s : Bytes) × (g'.share_token_hash ≡ some h)
        × (g'.share_token_salt ≡ some s)
        × (verify_token c token h s ≡ true)
        × (g'.share_token_lookup ≡ some (token_locator c token))
        × (g'.status ≢ draft)
  unfolding apply_command verify_token
  create_verifies token salt password_hash g = (
    c.sha256 (token ++ salt),
    salt,
    refl,
    refl,
    bytes_eq_refl (c.sha256 (token ++ salt)),
    refl,
    λ e. ground arith,
  )

  pub apply_command-id : (command : Command) (g : Gallery) → (apply_command c command g).id ≡ g.id
  unfolding apply_command
  apply_command-id (create _ _ _) g = refl
  apply_command-id revoke g = refl
  apply_command-id (set_password _) g = refl

  pub apply_command-epoch :
      (command : Command) (g : Gallery)
      → (apply_command c command g).authorization_epoch ≡ g.authorization_epoch + 1
  unfolding apply_command
  apply_command-epoch (create _ _ _) g = refl
  apply_command-epoch revoke g = refl
  apply_command-epoch (set_password _) g = refl

  -- The owner of a gallery can always run a credential command on it: the gallery is written as
  -- the command says, under an authorization epoch one higher, and no other gallery is touched.
  pub run_command_owned :
      (command : Command) (gallery : ℕ) (db : Database) {g : Gallery}
      → find_where (gallery_is gallery) db.galleries ≡ some g
      → (db' : Database) × (run_command c command gallery g.owner_id db
          ≡ ok (apply_command c command g, db'))
        × (find_where (gallery_is gallery) db'.galleries ≡ some (apply_command c command g))
        × ((apply_command c command g).authorization_epoch ≡ g.authorization_epoch + 1)
        × ((j : ℕ)
            → j ≢ gallery
            → find_where (gallery_is j) db'.galleries ≡ find_where (gallery_is j) db.galleries)
  unfolding run_command get_owned_gallery
  run_command_owned command gallery db {g = g} found = (
    write_gallery gallery (apply_command c command) db,
    rw (
        find_where-and (gallery_is gallery) (λ x. x.owner_id == g.owner_id) db.galleries
          (==_refl g.owner_id) found),
    find_where-update_where (gallery_is gallery) (apply_command c command) db.galleries
        (rw (apply_command-id command g) (find_where-test (gallery_is gallery) db.galleries found))
        found,
    apply_command-epoch command g,
    λ j ne.
        find_where-update_where_ne (gallery_is j) (gallery_is gallery) (apply_command c command)
          db.galleries (λ x t. (ground arith, ground (arith, apply_command-id command x))),
  )

  -- A credential command that succeeds was run by the owner of the gallery that it names.
  pub run_command_safe :
      (command : Command) (gallery owner : ℕ) (db : Database) {r : Gallery × Database}
      → run_command c command gallery owner db ≡ ok r
      → (g : Gallery) × (find_where (is_owned gallery owner) db.galleries ≡ some g)
        × (g.id ≡ gallery)
        × (g.owner_id ≡ owner)
        × (r.0 ≡ apply_command c command g)
  unfolding run_command get_owned_gallery
  run_command_safe command gallery owner db e =
      elim (Option-cases (find_where (is_owned gallery owner) db.galleries)) [
        | inl absent ↦ cc (rw absent at e)
        | inr (g, found) ↦
            let t = find_where-test (is_owned gallery owner) db.galleries found in
            (g, found, ground arith, ground arith, ground arith)
      ]

  pub run_command-db :
      (command : Command) (gallery owner : ℕ) (db : Database) {r : Gallery × Database}
      → run_command c command gallery owner db ≡ ok r
      → r.1 ≡ write_gallery gallery (apply_command c command) db
  unfolding run_command
  run_command-db command gallery owner db e = ground arith
