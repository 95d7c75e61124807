-- ===== src/Accounts/Admin/Changes.antt =====
-- What `change_user_status` of app/admin/service.py may answer.
use picture_stage.Base.{
  ℕ, ◌≤◌, ◌≡◌, refl, ◌≢◌, ◌⊎◌, inl, inr, true, false, not, ◌&&◌, none, some, arith, find_where,
  Option-cases, Bool-cases, ◌==◌, leb, find_where-update_where, find_where-test, sym,
}
use picture_stage.Base.Results.{Result, ok, err}
use picture_stage.Models.{
  User, UserStatus, pending, active, admin, disabled, is_admin, Database, user_is,
}
use picture_stage.Accounts.Admin.{
  Error, status_pending, user_not_found, self_status, last_admin, count_admins, user_status_eq,
  is_pending, with_status, write_user, change_user_status,
}

user_status_eq_sound : (s t : UserStatus) → user_status_eq s t ≡ true → s ≡ t
user_status_eq_sound pending pending h = refl
user_status_eq_sound active active h = refl
user_status_eq_sound admin admin h = refl
user_status_eq_sound disabled disabled h = refl
user_status_eq_sound s t h = cc

is_pending_sound : (s : UserStatus) → is_pending s ≡ true → s ≡ pending
is_pending_sound pending h = refl
is_pending_sound s h = cc

is_admin_complete : (s : UserStatus) → s ≢ admin → is_admin s ≡ false
is_admin_complete admin h = absurd (h refl)
is_admin_complete s h = refl

two_admins :
    (old new_status : UserStatus) (n : ℕ)
    → old ≡ admin
    → new_status ≢ admin
    → (is_admin old && not (is_admin new_status) && leb n 1) ≡ false
    → 2 ≤ n
two_admins old new_status n q ne h = ground (arith, q, is_admin_complete new_status ne)

last_one :
    (old new_status : UserStatus) (n : ℕ)
    → (is_admin old && not (is_admin new_status) && leb n 1) ≡ true
    → (old ≡ admin) × (new_status ≢ admin) × (n ≤ 1)
last_one admin admin n h = cc
last_one admin new_status n h = (refl, λ e. cc, ground arith)
last_one old new_status n h = cc

-- What a status change of the user `u` may answer.
abbrev ChangeOf : ℕ → ℕ → UserStatus → ℕ → Database → User → Result Error (User × Database) → Type 0
ChangeOf actor target new_status now db u (ok (u', db')) =
    (u.id ≢ actor)
    × (new_status ≢ pending)
    × (u.status ≡ admin → new_status ≢ admin → 2 ≤ count_admins db)
    × (((u.status ≡ new_status) × (u' ≡ u) × (db' ≡ db))
        ⊎ ((u' ≡ with_status new_status now u)
            × (find_where (user_is target) db'.users ≡ some u')
            × (db' ≡ write_user actor target (with_status new_status now) db)))
ChangeOf actor target new_status now db u (err status_pending) = new_status ≡ pending
ChangeOf actor target new_status now db u (err self_status) = u.id ≡ actor
ChangeOf actor target new_status now db u (err last_admin) =
    (u.status ≡ admin) × (new_status ≢ admin) × (count_admins db ≤ 1)
ChangeOf actor target new_status now db u (err _) = ⊥

change_user_status_found :
    (actor target : ℕ) (new_status : UserStatus) (now : ℕ) (db : Database) {u : User}
    → find_where (user_is target) db.users ≡ some u
    → ChangeOf actor target new_status now db u (change_user_status actor target new_status now db)
unfolding change_user_status
change_user_status_found actor target new_status now db {u} found =
    elim (Bool-cases (is_pending new_status)) [
      | inl a ↦ rw a (is_pending_sound new_status a)
      | inr a ↦ elim (Bool-cases (u.id == actor)) [
        | inl b ↦ rw (a, found, b) (ground arith)
        | inr b ↦
            elim (Bool-cases
              (is_admin u.status && not (is_admin new_status) && leb (count_admins db) 1)) [
                | inl k ↦ rw (a, found, b, k) (last_one u.status new_status (count_admins db) k)
                | inr k ↦ elim (Bool-cases (user_status_eq new_status u.status)) [
                  | inl d ↦
                      rw (a, found, b, k, d)
                        (
                          λ q. ground arith,
                          λ q. ground arith,
                          λ q n. two_admins u.status new_status (count_admins db) q n k,
                          inl (sym (user_status_eq_sound new_status u.status d), refl, refl),
                        )
                  | inr d ↦
                      rw (a, found, b, k, d)
                        (
                          λ q. ground arith,
                          λ q. ground arith,
                          λ q n. two_admins u.status new_status (count_admins db) q n k,
                          inr (
                            refl,
                            find_where-update_where (user_is target) (with_status new_status now)
                                db.users (find_where-test (user_is target) db.users found) found,
                            refl,
                          ),
                        )
                ]
              ]
      ]
    ]

-- The answer to a request to change the status of the account `target`.
abbrev pub Outcome : ℕ → ℕ → UserStatus → ℕ → Database → Result Error (User × Database) → Type 0
Outcome actor target new_status now db r =
    ((new_status ≡ pending) × (r ≡ err status_pending))
    ⊎ ((find_where (user_is target) db.users ≡ none) × (r ≡ err user_not_found))
    ⊎ ((u : User) × (find_where (user_is target) db.users ≡ some u)
        × ChangeOf actor target new_status now db u r)

-- A status change is refused for `pending`, an unknown account, the actor's own account, and an
-- administrator who is the last one; otherwise it writes the account with its new status, and the
-- cut-off that locks it out, or writes nothing when the status is the same.
pub change_user_status-Outcome :
    (actor target : ℕ) (new_status : UserStatus) (now : ℕ) (db : Database)
    → Outcome actor target new_status now db (change_user_status actor target new_status now db)
unfolding change_user_status
change_user_status-Outcome actor target new_status now db =
    elim (Bool-cases (is_pending new_status)) [
      | inl a ↦ inl (is_pending_sound new_status a, ground arith)
      | inr a ↦ inr (elim (Option-cases (find_where (user_is target) db.users)) [
        | inl absent ↦ inl (absent, ground arith)
        | inr (u, found) ↦
            inr (u, found, change_user_status_found actor target new_status now db found)
      ])
    ]
