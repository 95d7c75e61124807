-- ===== src/Gallery/Share/Handlers.antt =====
-- `create_share_link` of app/galleries/sharing.py.
use picture_stage.Base.{ℕ, ◌≡◌, true, none, some, [], arith, Bytes, is_filled}
use picture_stage.Base.Results.{ok}
use picture_stage.Models.{Gallery, Database, Crypto}
use picture_stage.Gallery.Share.{ShareResponse, create_share_link}

module _ (c : Crypto) (token salt : Bytes) (gallery owner : ℕ) (db : Database) where
  -- A link that is created for a password that is not empty is protected by a hash that bcrypt
  -- accepts with that password, and the response says that it has a password.
  pub create_share_link-protects :
      (password : Bytes) {r : ShareResponse × Gallery × Database}
      → is_filled (some password) ≡ true
      → create_share_link c (some password) token salt gallery owner db ≡ ok r
      → (h : Bytes) × (r.1.password_hash ≡ some h)
        × (c.checkpw password h ≡ true)
        × (r.0.has_password ≡ true)
  unfolding create_share_link
  create_share_link-protects password filled e =
      (c.hashpw password, ground arith, c.checkpw-hashpw password, ground arith)

  -- For an empty password the response says that the link has a password, while the gallery is
  -- left with none.
  pub create_share_link-empty_password :
      {r : ShareResponse × Gallery × Database}
      → create_share_link c (some []) token salt gallery owner db ≡ ok r
      → (r.0.has_password ≡ true) × (r.1.password_hash ≡ none)
  unfolding create_share_link
  create_share_link-empty_password e = ground arith
