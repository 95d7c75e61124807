-- ===== src/Accounts/Signup/Approval.antt =====
-- What an approval of a signup (app/admin/service.py) may answer, and a verification link
-- (app/auth/token_lookup.py) that is followed again.
use picture_stage.Base.{
  ℕ, ◌≡◌, refl, ◌≢◌, inl, inr, true, false, not, Option, none, some, ◌∷◌, Bytes, arith, any,
  find_where, Option-cases, Bool-cases, find_where-update_where, find_where-test, any-filter-not,
  filter, ap, sym,
}
use mathlib.Core.Path.{subst}
use picture_stage.Base.Results.{ok, err, Result}
use picture_stage.Models.{User, active, PendingSignup, Database, Crypto}
use picture_stage.Accounts.Signup.{
  Error, signup_not_found, signup_unverified, signup_duplicate, signup_is, lock_pending_signup,
  with_verification, may_consume, consume_pending_signup, has_email, approve_pending_signup,
}

-- What an approval may answer, with the database that it leaves.
abbrev pub Outcome : ℕ → Database → Result Error User × Database → Type 0
Outcome signup db (ok u, db') =
    (s : PendingSignup) × (lock_pending_signup signup db ≡ some s)
    × (s.email_verified_at ≢ none)
    × ((u.email ≡ s.email)
        × (u.password_hash ≡ s.password_hash)
        × (u.status ≡ active)
        × (u.email_verified_at ≡ s.email_verified_at)
        × (db'.users ≡ u ∷ db.users)
        × (any (has_email u.email) db.users ≡ false)
        × (any (signup_is signup) db'.pending_signups ≡ false))
Outcome signup db (err signup_not_found, db') = (lock_pending_signup signup db ≡ none) × (db' ≡ db)
Outcome signup db (err signup_unverified, db') =
    ((s : PendingSignup) × (lock_pending_signup signup db ≡ some s) × (s.email_verified_at ≡ none))
    × (db' ≡ db)
Outcome signup db (err signup_duplicate, db') =
    ((s : PendingSignup) × (lock_pending_signup signup db ≡ some s)
      × (any (has_email s.email) db.users ≡ true))
    × (db'.users ≡ db.users)
    × (any (signup_is signup) db'.pending_signups ≡ false)

gone :
    (signup : ℕ) (db : Database) {s : PendingSignup}
    → lock_pending_signup signup db ≡ some s
    → (any (signup_is signup) (filter (λ x. not (signup_is s.id x)) db.pending_signups) ≡ false)
unfolding lock_pending_signup
gone signup db {s} found =
    let same : s.id ≡ signup =
      ground (arith, find_where-test (signup_is signup) db.pending_signups found) in
    rw same (any-filter-not (signup_is signup) db.pending_signups)

-- An approval creates one active account with the verified email and the password of the signup,
-- only where no account has the email, and removes the signup. Where the email is taken it
-- removes the signup and creates nothing; an unverified or unknown signup changes nothing.
pub approve_pending_signup-Outcome :
    (id signup : ℕ) (db : Database) → Outcome signup db (approve_pending_signup id signup db)
unfolding approve_pending_signup
approve_pending_signup-Outcome id signup db = elim (Option-cases (lock_pending_signup signup db)) [
  | inl absent ↦ rw absent (absent, refl)
  | inr (s, found) ↦ elim (Option-cases s.email_verified_at) [
    | inl unverified ↦ rw (found, unverified) ((s, found, unverified), refl)
    | inr (at, there) ↦ elim (Bool-cases (any (has_email s.email) db.users)) [
      | inl taken ↦ rw (found, there, taken) ((s, found, taken), refl, gone signup db found)
      | inr free ↦
          rw (found, there, free)
            (
              s,
              found,
              λ q. ground (arith, there, q),
              (refl, refl, refl, sym there, refl, free, gone signup db found),
            )
    ]
  ]
]

-- A verification link is consumed at most once: after a signup was verified with a token, a
-- candidate with its id is verified by no token.
pub consume_pending_signup_once :
    (c : Crypto) (token : Bytes) (candidate now : ℕ) (db : Database) {s : PendingSignup}
    {db' : Database}
    → consume_pending_signup c token (some candidate) now db ≡ (some s, db')
    → (token' : Bytes) (later : ℕ)
    → consume_pending_signup c token' (some candidate) later db' ≡ (none, db')
unfolding consume_pending_signup lock_pending_signup
consume_pending_signup_once c token candidate now db {s} {db'} e token' later =
    elim (Option-cases (find_where (signup_is candidate) db.pending_signups)) [
      | inl absent ↦ ground (arith, absent)
      | inr (r, found) ↦ elim (Bool-cases (may_consume c token r)) [
        | inl fits ↦
            let same : r.id ≡ candidate =
              ground (arith, find_where-test (signup_is candidate) db.pending_signups found) in
            let written =
              ap (λ (p : Option PendingSignup × Database). p.1) (rw (found, fits) at e) in
            let there =
              find_where-update_where (signup_is candidate) (with_verification now)
                db.pending_signups (find_where-test (signup_is candidate) db.pending_signups found)
                found in
            subst
              (λ (d : Database).
                consume_pending_signup c token' (some candidate) later d ≡ (none, d))
              written (rw same (rw there refl))
        | inr unfit ↦ ground (arith, found, unfit)
      ]
    ]
