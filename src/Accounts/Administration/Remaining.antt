-- ===== src/Accounts/Administration/Remaining.antt =====
-- The administrators that remain over any sequence of requests to the admin API.
use mathlib.Core.Path.{subst}
use picture_stage.Base.{
  ℕ, ◌≤◌, ◌≡◌, refl, ◌≢◌, inl, inr, Option, some, Bytes, arith, find_where, update_where,
  Option-cases, Bool-cases, any, find_where-update_where_ne, find_where-test, ap, sym, ◌∙◌,
}
use picture_stage.Base.Int.{ℤ}
use picture_stage.Base.Results.{ok, ok_inj}
use picture_stage.Models.{
  User, UserStatus, admin, is_admin, Database, Crypto, PreviewVariant, user_is,
}
use picture_stage.Storage.Quota.{Tables}
use picture_stage.Storage.Quota.Balance.{IsBalanced}
use picture_stage.Accounts.Auth.{TokenData, require_admin}
use picture_stage.Accounts.Auth.Gate.{require_admin-IsAuthenticated}
use picture_stage.Accounts.Admin.{
  count_admins, change_user_status, reset_user_password, set_gallery_limit_override, get_target,
  with_status, with_new_password, with_limit, is_invalid_limit,
}
use picture_stage.Accounts.Admin.Changes.{change_user_status-Outcome}
use picture_stage.Accounts.Removal.Removed.{delete_user-IsRemoved, delete_user-IsBalanced}
use picture_stage.Accounts.Signup.{
  lock_pending_signup, has_email, insert_approved, approve_signup, approve_pending_signup,
  reject_pending_signup,
}
use picture_stage.Accounts.Administration.{
  Step, break_off_deletion, approve, reject, change_status, reset_password, set_limit,
  delete_account, Steps, here, next,
}
use picture_stage.Accounts.Administration.Counting.{count-found, count-update_where}

-- The administrator who makes a request, in the users' table.
actor-found :
    (token : Option TokenData) (db : Database) {actor : User}
    → require_admin token db ≡ ok actor
    → (find_where (user_is actor.id) db.users ≡ some actor) × (actor.status ≡ admin)
actor-found token db {actor} e =
    let (auth, is_admin) = require_admin-IsAuthenticated token db e in
    let same : actor.id ≡ auth.user_id =
      ground (arith, find_where-test (user_is auth.user_id) db.users auth.found) in
    (subst (λ i. find_where (user_is i) db.users ≡ some actor) (sym same) auth.found, is_admin)

change_status-admins :
    (actor : User) (target : ℕ) (new_status : UserStatus) (now : ℕ) (db : Database) {u : User}
    {db' : Database}
    → find_where (user_is actor.id) db.users ≡ some actor
    → actor.status ≡ admin
    → change_user_status actor.id target new_status now db ≡ ok (u, db')
    → 1 ≤ count_admins db'
change_status-admins actor target new_status now db {u} {db'} found is_admin e =
    let answer = change_user_status-Outcome actor.id target new_status now db in
    elim (rw e at answer) [
      | inl (_, impossible) ↦ cc
      | inr (inl (_, impossible)) ↦ cc
      | inr (inr (v, there, (other, _, _, inl (_, _, same)))) ↦
          rw same (count-found actor.id db.users found is_admin)
      | inr (inr (v, there, (other, _, _, inr (_, _, written)))) ↦
          let ne : actor.id ≢ target =
            λ q. other (ground (arith, q, find_where-test (user_is target) db.users there)) in
          rw written (
            count-found actor.id
              (update_where (user_is target) (with_status new_status now) db.users)
              (find_where-update_where_ne (user_is actor.id) (user_is target)
                  (with_status new_status now) db.users (λ x t. ground (arith, ne, t))
                ∙ found)
              is_admin)
    ]

-- What the administration keeps: exact totals, and an administrator.
pub record IsSound (db : Database) (t : Tables) : Type 0 where
  pub balanced : IsBalanced t
  pub has_admin : 1 ≤ count_admins db

module _ (c : Crypto) (storage_key : ℕ → ℕ → PreviewVariant → ℕ) where
  reset_password-admins :
      (actor target : ℕ) (password : Bytes) (now : ℕ) (db : Database) {u : User} {db' : Database}
      → reset_user_password c actor target password now db ≡ ok (u, db')
      → count_admins db' ≡ count_admins db
  unfolding reset_user_password get_target
  reset_password-admins actor target password now db e =
      elim (Option-cases (find_where (user_is target) db.users)) [
        | inl absent ↦ ground (arith, absent)
        | inr (v, there) ↦
            let written = ap (λ (r : User × Database). r.1) (ok_inj (rw there at e)) in
            subst (λ (d : Database). count_admins d ≡ count_admins db) written
              (count-update_where (user_is target) (with_new_password c password now) db.users
                (λ u. refl))
      ]

  set_limit-admins :
      (actor target : ℕ) (override : Option ℤ) (db : Database) {u : User} {db' : Database}
      → set_gallery_limit_override actor target override db ≡ ok (u, db')
      → count_admins db' ≡ count_admins db
  unfolding set_gallery_limit_override get_target
  set_limit-admins actor target override db e = elim (Bool-cases (is_invalid_limit override)) [
    | inl bad ↦ ground (arith, bad)
    | inr fine ↦ elim (Option-cases (find_where (user_is target) db.users)) [
      | inl absent ↦ ground (arith, fine, absent)
      | inr (v, there) ↦
          let written = ap (λ (r : User × Database). r.1) (ok_inj (rw (fine, there) at e)) in
          subst (λ (d : Database). count_admins d ≡ count_admins db) written
            (count-update_where (user_is target) (with_limit override) db.users (λ u. refl))
    ]
  ]

  approve_pending_signup-admins :
      (id signup : ℕ) (db : Database)
      → count_admins (approve_pending_signup id signup db).1 ≡ count_admins db
  unfolding approve_pending_signup approve_signup insert_approved
  approve_pending_signup-admins id signup db = elim (Option-cases (lock_pending_signup signup db)) [
    | inl absent ↦ rw (approve_pending_signup, absent) refl
    | inr (s, there) ↦ elim (Option-cases s.email_verified_at) [
      | inl unverified ↦ rw (approve_pending_signup, there, unverified) refl
      | inr (verified_at, verified) ↦ elim (Bool-cases (any (has_email s.email) db.users)) [
        | inl taken ↦ rw (approve_pending_signup, there, verified, taken) refl
        | inr free ↦ rw (approve_pending_signup, there, verified, free) (omega arith)
      ]
    ]
  ]

  reject_pending_signup-admins :
      (signup : ℕ) (db : Database) {db' : Database}
      → reject_pending_signup signup db ≡ ok db'
      → count_admins db' ≡ count_admins db
  unfolding reject_pending_signup
  reject_pending_signup-admins signup db {db'} e =
      elim (Option-cases (lock_pending_signup signup db)) [
        | inl absent ↦ let no = rw (reject_pending_signup, absent) at e in cc
        | inr (s, there) ↦
            let written = ok_inj (rw (reject_pending_signup, there) at e) in
            subst (λ (d : Database). count_admins d ≡ count_admins db) written refl
      ]

  Step-IsSound :
      {db db' : Database} {t t' : Tables}
      → Step c storage_key db t db' t'
      → IsSound db t
      → IsSound db' t'
  Step-IsSound {db} (change_status token actor target new_status now gate e) h =
      let (found, is_admin) = actor-found token db gate in
      record {
        balanced = h.balanced;
        has_admin = change_status-admins actor target new_status now db found is_admin e;
      }
  Step-IsSound {db} (reset_password token actor target password now gate e) h = record {
    balanced = h.balanced;
    has_admin = rw (reset_password-admins actor.id target password now db e) h.has_admin;
  }
  Step-IsSound {db} (set_limit token actor target override gate e) h = record {
    balanced = h.balanced;
    has_admin = rw (set_limit-admins actor.id target override db e) h.has_admin;
  }
  Step-IsSound {db} {db'} {t} (delete_account token actor target fails gate e) h =
      let (found, is_admin) = actor-found token db gate in
      let r = delete_user-IsRemoved storage_key fails actor.id target db t h.balanced e in
      record {
        balanced = r.balanced;
        has_admin =
            count-found actor.id db'.users
              (r.others_kept actor.id (λ q.
                  r.not_self (ground (arith, q, find_where-test (user_is target) db.users r.found)))
                ∙ found)
              is_admin;
      }
  Step-IsSound {db} {t = t} (break_off_deletion token actor target fails gate e) h = record {
    balanced = delete_user-IsBalanced storage_key fails actor.id target db t h.balanced;
    has_admin = h.has_admin;
  }
  Step-IsSound {db} (approve token actor id signup gate) h = record {
    balanced = h.balanced;
    has_admin = rw (approve_pending_signup-admins id signup db) h.has_admin;
  }
  Step-IsSound {db} (reject token actor signup gate e) h = record {
    balanced = h.balanced;
    has_admin = rw (reject_pending_signup-admins signup db e) h.has_admin;
  }

  -- Whatever administrators request that changes accounts or signups, one request after the other, and
  -- whether or not a deletion breaks off, the accounts always keep at least one administrator, and the
  -- storage totals stay exact, if both hold at first.
  pub Steps-IsSound :
      {db : Database} {t : Tables} {db' : Database} {t' : Tables}
      → IsSound db t
      → Steps c storage_key db t db' t'
      → IsSound db' t'
  Steps-IsSound h here = h
  Steps-IsSound h (next r x) = Step-IsSound x (Steps-IsSound h r)
