-- ===== src/Accounts/Administration/Counting.antt =====
-- How many administrators a table of users has.
use picture_stage.Base.{
  ℕ, ◌≤◌, ◌≡◌, refl, inl, inr, Bool, some, List, [], ◌∷◌, arith, find_where, update_where,
  count_where, Bool-cases, ap,
}
use picture_stage.Models.{User, admin, is_admin, user_is}

pub count-found :
    (i : ℕ) (rows : List User) {u : User}
    → find_where (user_is i) rows ≡ some u
    → u.status ≡ admin
    → 1 ≤ count_where (λ x. is_admin x.status) rows
count-found i [] e h = cc
count-found i (x ∷ rows) {u} e h = elim (Bool-cases (user_is i x)) [
  | inl t ↦ ground (arith, e, h, t, ap is_admin h)
  | inr f ↦ let more = count-found i rows (rw f at e) h in omega (arith, more)
]

-- A change of rows that keeps their statuses.
pub count-update_where :
    (p : User → Bool) (f : User → User) (rows : List User)
    → ((u : User) → (f u).status ≡ u.status)
    → count_where (λ x. is_admin x.status) (update_where p f rows)
      ≡ count_where (λ x. is_admin x.status) rows
count-update_where p f [] h = refl
count-update_where p f (x ∷ rows) h = elim (Bool-cases (p x)) [
  | inl t ↦ rw (t, h x, count-update_where p f rows h) refl
  | inr n ↦ rw (n, count-update_where p f rows h) refl
]
