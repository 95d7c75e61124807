-- ===== src/Accounts/Auth/Gate.antt =====
-- What the gates of app/auth/dependencies.py let through, from a header and from a cookie.
use picture_stage.Base.{
  ℕ, ◌≡◌, refl, inl, inr, true, false, Option, none, some, ◌≤◌, arith, find_where, Option-cases,
}
use picture_stage.Base.Results.{ok, Result-cases, to_option}
use picture_stage.Models.{User, admin, is_login_allowed, Database, user_is}
use picture_stage.Accounts.Auth.{
  TokenData, get_current_user, require_active_user, require_admin, get_user_from_cookie,
  require_authenticated_page, is_token_revoked, token_revoked_by,
}

-- A user whom a token authenticates.
pub record IsAuthenticated (token : Option TokenData) (db : Database) (user : User) : Type 0 where
  pub claims : TokenData
  pub decoded : token ≡ some claims
  pub not_logged_out : is_token_revoked db claims ≡ false
  pub user_id : ℕ
  pub has_id : claims.user_id ≡ some user_id
  pub found : find_where (user_is user_id) db.users ≡ some user
  pub after_cutoff :
      (cutoff : ℕ) → user.tokens_valid_after ≡ some cutoff → cutoff ≤ claims.issued_at

pub get_current_user-IsAuthenticated :
    (token : Option TokenData) (db : Database) {user : User}
    → get_current_user token db ≡ ok user
    → IsAuthenticated token db user
unfolding get_current_user token_revoked_by
get_current_user-IsAuthenticated none db e = cc
get_current_user-IsAuthenticated (some t) db e = elim (Option-cases t.user_id) [
  | inl absent ↦ ground arith
  | inr (uid, there) ↦ elim (Option-cases (find_where (user_is uid) db.users)) [
    | inl absent ↦ ground arith
    | inr (u, found) ↦ record {
      claims = t;
      decoded = refl;
      not_logged_out = ground arith;
      user_id = uid;
      has_id = there;
      found = ground arith;
      after_cutoff = λ cutoff q. ground arith;
    }
  ]
]

-- A user passes the gate of the owner API only with a token that decodes, was not logged out, was
-- not issued before the user's cut-off, and names the user, whose status may log in.
pub require_active_user-IsAuthenticated :
    (token : Option TokenData) (db : Database) {user : User}
    → require_active_user token db ≡ ok user
    → IsAuthenticated token db user × (is_login_allowed user.status ≡ true)
unfolding require_active_user
require_active_user-IsAuthenticated token db e = elim (Result-cases (get_current_user token db)) [
  | inr (x, refused) ↦ ground arith
  | inl (u, passed) ↦ (get_current_user-IsAuthenticated token db (ground arith), ground arith)
]

-- The same for the gate of the admin API, which lets only administrators through.
pub require_admin-IsAuthenticated :
    (token : Option TokenData) (db : Database) {user : User}
    → require_admin token db ≡ ok user
    → IsAuthenticated token db user × (user.status ≡ admin)
unfolding require_admin
require_admin-IsAuthenticated token db e = elim (Result-cases (get_current_user token db)) [
  | inr (x, refused) ↦ ground arith
  | inl (u, passed) ↦ (get_current_user-IsAuthenticated token db (ground arith), ground arith)
]

-- The pages that read the token from the cookie find the same user as the API that reads it from
-- the header.
pub get_user_from_cookie-agrees :
    (token : Option TokenData) (db : Database)
    → get_user_from_cookie token db ≡ to_option (get_current_user token db)
unfolding get_user_from_cookie get_current_user
get_user_from_cookie-agrees none db = refl
get_user_from_cookie-agrees (some t) db = elim (Option-cases t.user_id) [
  | inl absent ↦ ground arith
  | inr (uid, there) ↦ ground (arith, there)
]

-- The gate of the pages admits exactly whom the gate of the API admits.
pub require_authenticated_page-agrees :
    (token : Option TokenData) (db : Database)
    → require_authenticated_page token db ≡ to_option (require_active_user token db)
unfolding require_authenticated_page require_active_user
require_authenticated_page-agrees token db =
    rw (require_authenticated_page, get_user_from_cookie-agrees token db)
      (elim (Result-cases (get_current_user token db)) [
        | inl (u, passed) ↦ rw passed (ground arith)
        | inr (x, refused) ↦ rw refused refl
      ])
