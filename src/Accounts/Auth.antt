-- ===== src/Accounts/Auth.antt =====
-- app/auth/dependencies.py and app/auth/revocation.py: who a request is from, and logging out. A
-- token is given as the result of `decode_access_token`: its checked claims, or `none`.
pub mod Gate
pub mod Logout
mod Tests
use picture_stage.Base.{
  ℕ, Bool, true, false, not, ◌&&◌, Option, none, some, List, [], ◌∷◌, map, filter, any, take,
  contains, find_where, ltb, leb, ◌==◌, if◌then◌else◌, is_none,
}
use picture_stage.Base.Results.{Result, ok, err, raise_if, or_raise, ◌>>=◌, ◌>>◌}
use picture_stage.Models.{
  User, UserStatus, pending, active, admin, disabled, is_login_allowed, is_admin, RevokedToken,
  Database, user_is,
}

-- `TokenData`; the user's id is the UUID that it parses to, if it does.
pub record TokenData : Type 0 where
  pub user_id : Option ℕ
  pub issued_at : ℕ
  pub expires_at : ℕ
  pub fingerprint : ℕ

-- The answers 401, 403 and 409.
pub data Error : Type 0 where
  invalid_token token_revoked invalid_payload user_not_found : Error
  account_disabled not_approved admin_required conflicting_credentials : Error

unfoldable pub token_revoked_by : User → TokenData → Bool
token_revoked_by user t = elim user.tokens_valid_after [
  | none ↦ false
  | some cutoff ↦ ltb t.issued_at cutoff
]

abbrev pub has_fingerprint : ℕ → RevokedToken → Bool
has_fingerprint f r = r.fingerprint == f

unfoldable pub is_token_revoked : Database → TokenData → Bool
is_token_revoked db t = any (has_fingerprint t.fingerprint) db.revoked_tokens

unfoldable pub get_current_user : Option TokenData → Database → Result Error User
unfolding is_token_revoked token_revoked_by
get_current_user token db = do
  t ← or_raise token invalid_token
  raise_if (is_token_revoked db t) token_revoked
  uid ← or_raise t.user_id invalid_payload
  user ← or_raise (find_where (user_is uid) db.users) user_not_found
  raise_if (token_revoked_by user t) token_revoked
  ok user

abbrev is_disabled : UserStatus → Bool
is_disabled disabled = true
is_disabled _ = false

unfoldable pub require_active_user : Option TokenData → Database → Result Error User
unfolding get_current_user
require_active_user token db = do
  user ← get_current_user token db
  raise_if (not (is_login_allowed user.status))
      (if is_disabled user.status then account_disabled else not_approved)
  ok user

unfoldable pub require_admin : Option TokenData → Database → Result Error User
unfolding get_current_user
require_admin token db = do
  user ← get_current_user token db
  raise_if (not (is_admin user.status)) admin_required
  ok user

-- The user of a decoded token, from the cookie.
unfoldable pub cookie_user : TokenData → ℕ → Database → Option User
unfolding token_revoked_by
cookie_user t uid db = elim (find_where (user_is uid) db.users) [
  | none ↦ none
  | some user ↦ if token_revoked_by user t then none else some user
]

unfoldable pub get_user_from_cookie : Option TokenData → Database → Option User
unfolding is_token_revoked cookie_user
get_user_from_cookie none db = none
get_user_from_cookie (some t) db =
    if is_token_revoked db t
    then none
    else elim t.user_id [ none ↦ none | some uid ↦ cookie_user t uid db ]

-- `require_authenticated_page`; `none` is the redirect to the login page.
unfoldable pub require_authenticated_page : Option TokenData → Database → Option User
unfolding get_user_from_cookie
require_authenticated_page token db = elim (get_user_from_cookie token db) [
  | none ↦ none
  | some user ↦ if is_login_allowed user.status then some user else none
]

abbrev pub revoked_token_cleanup_batch : ℕ
revoked_token_cleanup_batch = 100

unfoldable pub insert_by_expiry : RevokedToken → List RevokedToken → List RevokedToken
insert_by_expiry a [] = a ∷ []
insert_by_expiry a (b ∷ rows) =
    let rest = insert_by_expiry a rows in
    if leb a.expires_at b.expires_at then a ∷ b ∷ rows else b ∷ rest

-- `order_by(RevokedToken.expires_at)`
unfoldable pub order_by_expiry : List RevokedToken → List RevokedToken
unfolding insert_by_expiry
order_by_expiry [] = []
order_by_expiry (a ∷ rows) = insert_by_expiry a (order_by_expiry rows)

-- An expired row that no other transaction holds (`skip_locked`).
abbrev pub is_collectable : (ℕ → Bool) → ℕ → RevokedToken → Bool
is_collectable locked now r = leb r.expires_at now && not (locked r.fingerprint)

unfoldable pub expired_window : (ℕ → Bool) → ℕ → List RevokedToken → List RevokedToken
unfolding order_by_expiry
expired_window locked now rows =
    take revoked_token_cleanup_batch (order_by_expiry (filter (is_collectable locked now) rows))

unfoldable pub cleanup_revoked_tokens : (ℕ → Bool) → ℕ → List RevokedToken → List RevokedToken
unfolding expired_window
cleanup_revoked_tokens locked now rows =
    filter (λ r. not (any (has_fingerprint r.fingerprint) (expired_window locked now rows))) rows

-- `on_conflict_do_nothing` on the fingerprint.
unfoldable pub insert_revoked : TokenData → List RevokedToken → List RevokedToken
insert_revoked t rows =
    if any (has_fingerprint t.fingerprint) rows
    then rows
    else record { fingerprint = t.fingerprint; expires_at = t.expires_at } ∷ rows

-- The credential that is logged out: the cookie's without an authorization header, and otherwise
-- the header's, which must agree with a cookie that decodes.
unfoldable pub chosen_credential :
    Option TokenData → Option (Option TokenData) → Result Error (Option TokenData)
chosen_credential cookie none = ok cookie
chosen_credential none (some header) = ok header
chosen_credential (some c) (some none) = err conflicting_credentials
chosen_credential (some c) (some (some t)) =
    if t.fingerprint == c.fingerprint then ok (some t) else err conflicting_credentials

-- The transaction of a logout, when there is a credential to revoke.
unfoldable pub revoke_credential : (ℕ → Bool) → ℕ → Database → Option TokenData → Database
unfolding cleanup_revoked_tokens insert_revoked
revoke_credential locked now db none = db
revoke_credential locked now db (some t) = record db {
  revoked_tokens = insert_revoked t (cleanup_revoked_tokens locked now db.revoked_tokens);
}

unfoldable pub logout_credential :
    (ℕ → Bool) → ℕ → Option TokenData → Option (Option TokenData) → Database → Result Error Database
unfolding chosen_credential revoke_credential
logout_credential locked now cookie header db =
    chosen_credential cookie header >>= λ token. ok (revoke_credential locked now db token)
