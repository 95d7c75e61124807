-- ===== src/Accounts/Signup.antt =====
-- Signups that wait for their approval: `consume_pending_signup` of app/auth/token_lookup.py, once
-- a link is resolved to a candidate, and the approval and rejection of app/admin/service.py. An
-- approval that finds the email taken commits the removal of the signup before it raises, so these
-- operations return the database in every case.
pub mod Approval
mod Tests
use picture_stage.Base.{
  ℕ, Bool, true, false, not, ◌&&◌, ◌||◌, Option, none, some, List, [], ◌∷◌, Bytes, bytes_eq, filter,
  any, find_where, update_where, ◌==◌, if◌then◌else◌, is_none, is_some, is_empty,
}
use picture_stage.Base.Results.{Result, ok, err}
use picture_stage.Models.{User, active, PendingSignup, Database, Crypto}
use picture_stage.Gallery.Share.{verify_token}

pub data Error : Type 0 where
  signup_not_found signup_unverified signup_duplicate : Error

abbrev pub signup_is : ℕ → PendingSignup → Bool
signup_is i s = s.id == i

-- `lock_pending_signup`
unfoldable pub lock_pending_signup : ℕ → Database → Option PendingSignup
lock_pending_signup signup db = find_where (signup_is signup) db.pending_signups

abbrev pub with_verification : ℕ → PendingSignup → PendingSignup
with_verification now s = record s {
  email_verified_at = some now;
  verification_token_hash = [];
  verification_token_salt = [];
  verification_lookup_id = none;
}

-- The recheck of the locked row; empty hashes are spent ones.
unfoldable pub may_consume : Crypto → Bytes → PendingSignup → Bool
may_consume c token s =
    is_none s.email_verified_at
    && not (is_empty s.verification_token_hash)
    && not (is_empty s.verification_token_salt)
    && verify_token c token s.verification_token_hash s.verification_token_salt

unfoldable pub consume_row :
    Crypto → Bytes → ℕ → Database → Option PendingSignup → Option PendingSignup × Database
unfolding may_consume
consume_row c token now db none = (none, db)
consume_row c token now db (some s) =
    if may_consume c token s
    then (
      some (with_verification now s),
      record db {
        pending_signups = update_where (signup_is s.id) (with_verification now) db.pending_signups;
      },
    )
    else (none, db)

-- `consume_pending_signup`, from the id of the resolved candidate.
unfoldable pub consume_pending_signup :
    Crypto → Bytes → Option ℕ → ℕ → Database → Option PendingSignup × Database
unfolding lock_pending_signup consume_row
consume_pending_signup c token none now db = (none, db)
consume_pending_signup c token (some candidate) now db =
    consume_row c token now db (lock_pending_signup candidate db)

abbrev pub delete_signup : ℕ → Database → Database
delete_signup signup db = record db {
  pending_signups = filter (λ s. not (signup_is signup s)) db.pending_signups;
}

-- The inserted row; its id is drawn by the model's default.
abbrev pub approved_user : ℕ → PendingSignup → ℕ → User
approved_user id s verified_at = record {
  id = id;
  email = s.email;
  password_hash = s.password_hash;
  status = active;
  email_verified_at = some verified_at;
  tokens_valid_after = none;
  gallery_limit_override = none;
}

abbrev pub has_email : Bytes → User → Bool
has_email email u = bytes_eq u.email email

-- The insert with its conflict target, and the delete of the signup.
unfoldable pub insert_approved : ℕ → PendingSignup → ℕ → Database → Result Error User × Database
insert_approved id s verified_at db =
    if any (has_email s.email) db.users then (err signup_duplicate, delete_signup s.id db) else (
      ok (approved_user id s verified_at),
      delete_signup s.id (record db { users = approved_user id s verified_at ∷ db.users }),
    )

unfoldable pub approve_signup : ℕ → Database → Option PendingSignup → Result Error User × Database
unfolding insert_approved
approve_signup id db none = (err signup_not_found, db)
approve_signup id db (some s) = elim s.email_verified_at [
  | none ↦ (err signup_unverified, db)
  | some verified_at ↦ insert_approved id s verified_at db
]

unfoldable pub approve_pending_signup : ℕ → ℕ → Database → Result Error User × Database
unfolding approve_signup lock_pending_signup
approve_pending_signup id signup db = approve_signup id db (lock_pending_signup signup db)

unfoldable pub reject_pending_signup : ℕ → Database → Result Error Database
unfolding lock_pending_signup
reject_pending_signup signup db = elim (lock_pending_signup signup db) [
  | none ↦ err signup_not_found
  | some s ↦ ok (delete_signup s.id db)
]
