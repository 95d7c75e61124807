-- ===== src/Accounts/Admin/Lockout.antt =====
-- The tokens that an administrator's action ends: app/admin/service.py writes the cut-off that
-- app/auth/dependencies.py compares.
use picture_stage.Base.{
  ℕ, ◌<◌, ◌≡◌, refl, ◌≢◌, inl, inr, some, Bytes, arith, find_where, Option-cases, Bool-cases,
  find_where-update_where, find_where-test, ap, sym,
}
use picture_stage.Base.Results.{ok, ok_inj}
use mathlib.Core.Path.{subst}
use picture_stage.Models.{User, disabled, is_login_allowed, Database, Crypto, user_is}
use picture_stage.Accounts.Auth.{
  TokenData, get_current_user, require_active_user, token_revoked_by, is_token_revoked,
}
use picture_stage.Accounts.Admin.Changes.{change_user_status-Outcome}
use picture_stage.Accounts.Admin.{
  change_user_status, reset_user_password, get_target, with_new_password,
}

-- The users' table holds the account with a cut-off.
cut_off :
    (t : TokenData) (target now : ℕ) (db : Database) {u : User}
    → find_where (user_is target) db.users ≡ some u
    → u.tokens_valid_after ≡ some now
    → t.user_id ≡ some target
    → t.issued_at < now
    → (v : User) → get_current_user (some t) db ≢ ok v
unfolding get_current_user token_revoked_by is_token_revoked
cut_off t target now db {u} found cut named before v e = elim (Bool-cases (is_token_revoked db t)) [
  | inl out ↦ ground (arith, out)
  | inr kept ↦ ground (arith, kept, named, found, cut)
]

-- After a password reset, no token of the account that was issued before it authenticates anyone.
pub reset_user_password-logs_out :
    (c : Crypto) (actor target : ℕ) (password : Bytes) (now : ℕ) (db : Database)
    {r : User × Database}
    → reset_user_password c actor target password now db ≡ ok r
    → (t : TokenData) → t.user_id ≡ some target
    → t.issued_at < now
    → (v : User) → get_current_user (some t) r.1 ≢ ok v
unfolding reset_user_password get_target
reset_user_password-logs_out c actor target password now db e t named before v passes =
    elim (Option-cases (find_where (user_is target) db.users)) [
      | inl absent ↦ ground (arith, absent)
      | inr (u, there) ↦
          let written = ap (λ (r : User × Database). r.1) (ok_inj (rw there at e)) in
          cut_off t target now _
            (find_where-update_where (user_is target) (with_new_password c password now) db.users
              (find_where-test (user_is target) db.users there) there)
            refl named before v
            (subst (λ (d : Database). get_current_user (some t) d ≡ ok v) (sym written) passes)
    ]

-- The users' table holds the account as disabled.
shut_out :
    (t : TokenData) (target : ℕ) (db : Database) {u : User}
    → find_where (user_is target) db.users ≡ some u
    → u.status ≡ disabled
    → t.user_id ≡ some target
    → (v : User) → require_active_user (some t) db ≢ ok v
unfolding require_active_user get_current_user
shut_out t target db {u} found off named v e = elim (Bool-cases (is_token_revoked db t)) [
  | inl out ↦ ground (arith, out)
  | inr kept ↦ elim (Bool-cases (token_revoked_by u t)) [
    | inl cut ↦ ground (arith, kept, named, found, cut)
    | inr uncut ↦ ground (arith, kept, named, found, uncut, off, ap is_login_allowed off)
  ]
]

-- After an account is disabled, no token of the account passes the gate of the owner API, whenever
-- it was issued.
pub change_user_status-locks_out :
    (actor target now : ℕ) (db : Database) {r : User × Database}
    → change_user_status actor target disabled now db ≡ ok r
    → (t : TokenData) → t.user_id ≡ some target
    → (v : User) → require_active_user (some t) r.1 ≢ ok v
change_user_status-locks_out actor target now db {r} e t named v passes =
    let answer = change_user_status-Outcome actor target disabled now db in
    elim (rw e at answer) [
      | inl (_, impossible) ↦ cc
      | inr (inl (_, impossible)) ↦ cc
      | inr (inr (u, there, (_, _, _, inl (off, _, same)))) ↦
          shut_out t target r.1
            (subst (λ (d : Database). find_where (user_is target) d.users ≡ some u) (sym same)
              there)
            off named v passes
      | inr (inr (u, there, (_, _, _, inr (changed, found, _)))) ↦
          let off : r.0.status ≡ disabled = rw changed refl in
          shut_out t target r.1 found off named v passes
    ]
