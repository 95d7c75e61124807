-- ===== src/Accounts/Administration.antt =====
-- The admin API of app/admin/router.py as a step relation: the gate of app/auth/dependencies.py
-- lets an administrator through, and a service of app/admin/service.py runs for them. A service
-- that raises is rolled back and makes no step, but for what it has committed before: the removal of a
-- signup whose email is taken, and the refunds of a deletion of an account. The limit of an account is
-- set by a form of app/frontend/admin.py, whose gate tests the account in the same way.
mod Counting
pub mod Remaining
mod Tests
use picture_stage.Base.{ℕ, ◌≡◌, Bool, Option, Bytes}
use picture_stage.Base.Int.{ℤ}
use picture_stage.Base.Results.{ok, err}
use picture_stage.Models.{User, UserStatus, Database, Crypto, PreviewVariant}
use picture_stage.Storage.Quota.{Tables}
use picture_stage.Accounts.Auth.{TokenData, require_admin}
use picture_stage.Accounts.Admin.{
  change_user_status, reset_user_password, set_gallery_limit_override,
}
use picture_stage.Accounts.Removal
use picture_stage.Accounts.Removal.{delete_user}
use picture_stage.Accounts.Signup.{approve_pending_signup, reject_pending_signup}

module _ (c : Crypto) (storage_key : ℕ → ℕ → PreviewVariant → ℕ) where
  -- One request, with its token.
  pub data Step (db : Database) (t : Tables) : Database → Tables → Type 0 where
    change_status :
        (token : Option TokenData) (actor : User) (target : ℕ) (new_status : UserStatus) (now : ℕ)
        {u : User} {db' : Database}
        → require_admin token db ≡ ok actor
        → change_user_status actor.id target new_status now db ≡ ok (u, db')
        → Step db t db' t
    reset_password :
        (token : Option TokenData) (actor : User) (target : ℕ) (password : Bytes) (now : ℕ)
        {u : User} {db' : Database}
        → require_admin token db ≡ ok actor
        → reset_user_password c actor.id target password now db ≡ ok (u, db')
        → Step db t db' t
    set_limit :
        (token : Option TokenData) (actor : User) (target : ℕ) (override : Option ℤ) {u : User}
        {db' : Database}
        → require_admin token db ≡ ok actor
        → set_gallery_limit_override actor.id target override db ≡ ok (u, db')
        → Step db t db' t
    delete_account :
        (token : Option TokenData) (actor : User) (target : ℕ) (fails : ℕ → Bool) {db' : Database}
        → require_admin token db ≡ ok actor
        → (delete_user storage_key fails actor.id target db t).0 ≡ ok db'
        → Step db t db' (delete_user storage_key fails actor.id target db t).1
    break_off_deletion :
        (token : Option TokenData) (actor : User) (target : ℕ) (fails : ℕ → Bool)
        {x : Removal.Error}
        → require_admin token db ≡ ok actor
        → (delete_user storage_key fails actor.id target db t).0 ≡ err x
        → Step db t db (delete_user storage_key fails actor.id target db t).1
    approve :
        (token : Option TokenData) (actor : User) (id signup : ℕ)
        → require_admin token db ≡ ok actor
        → Step db t (approve_pending_signup id signup db).1 t
    reject :
        (token : Option TokenData) (actor : User) (signup : ℕ) {db' : Database}
        → require_admin token db ≡ ok actor
        → reject_pending_signup signup db ≡ ok db'
        → Step db t db' t

  -- Any sequence of requests.
  pub data Steps (db : Database) (t : Tables) : Database → Tables → Type 0 where
    here : Steps db t db t
    next : {d d' : Database} {u u' : Tables} → Steps db t d u → Step d u d' u' → Steps db t d' u'
