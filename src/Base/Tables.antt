-- ===== src/Base/Tables.antt =====
-- Database tables as lists of rows: the first row that a test admits, an UPDATE of the rows that
-- a test admits, and byte strings.
use Prim.Native.Nat.{ℕ, zero, suc}
use mathlib.Core.Path.{◌≡◌, refl, subst}
use mathlib.Core.Logic.{inl, inr}
use mathlib.Core.Bool.{Bool, true, false, ◌&&◌}
use mathlib.Core.Option.{Option, none, some}
use mathlib.Core.List.{List, [], ◌∷◌}
use native.Mathlib.Omega.{arith}
use picture_stage.Base.Lists.{take, filter}
use picture_stage.Base.Tests.{◌==◌, Bool-cases, if◌then◌else◌}

module _ {ℓ} {A : Type ℓ} where
  abbrev pub find_where : (A → Bool) → List A → Option A
  find_where p [] = none
  find_where p (x ∷ xs) = let rest = find_where p xs in if p x then some x else rest

  abbrev pub update_where : (A → Bool) → (A → A) → List A → List A
  update_where p f [] = []
  update_where p f (x ∷ xs) = (if p x then f x else x) ∷ update_where p f xs

  -- `P` of every row.
  abbrev pub All {κ} : (A → Type κ) → List A → Type κ
  All P [] = Unit
  All P (x ∷ xs) = P x × All P xs

  some_inj : {a b : A} → some a ≡ some b → a ≡ b
  some_inj h = cc

  pub All-find_where {κ} :
      (P : A → Type κ) (p : A → Bool) (xs : List A) {a : A}
      → All P xs
      → find_where p xs ≡ some a
      → P a
  All-find_where P p [] h e = cc
  All-find_where P p (x ∷ xs) h e = elim (Bool-cases (p x)) [
    | inl t ↦ subst P (some_inj (rw t at e)) h.0
    | inr f ↦ All-find_where P p xs h.1 (rw f at e)
  ]

  pub find_where-test : (p : A → Bool) (xs : List A) {a : A} → find_where p xs ≡ some a → p a ≡ true
  find_where-test p [] e = cc
  find_where-test p (x ∷ xs) e = elim (Bool-cases (p x)) [
    | inl t ↦ subst (λ y. p y ≡ true) (some_inj (rw t at e)) t
    | inr f ↦ find_where-test p xs (rw f at e)
  ]

  -- The first row, when the update keeps the test.
  pub find_where-update_where :
      (p : A → Bool) (f : A → A) (xs : List A) {a : A}
      → p (f a) ≡ true
      → find_where p xs ≡ some a
      → find_where p (update_where p f xs) ≡ some (f a)
  find_where-update_where p f [] h e = cc
  find_where-update_where p f (x ∷ xs) h e = elim (Bool-cases (p x)) [
    | inl t ↦ let same = some_inj (rw t at e) in rw (t, same, h)
    | inr n ↦ rw (n, n) (find_where-update_where p f xs h (rw n at e))
  ]

  -- A second test that the first row passes does not change which row is first.
  pub find_where-and :
      (p r : A → Bool) (xs : List A) {a : A}
      → r a ≡ true
      → find_where p xs ≡ some a
      → find_where (λ x. p x && r x) xs ≡ some a
  find_where-and p r [] h e = cc
  find_where-and p r (x ∷ xs) h e = elim (Bool-cases (p x)) [
    | inl t ↦ let same = some_inj (rw t at e) in rw (t, same, h)
    | inr n ↦ rw n (find_where-and p r xs h (rw n at e))
  ]

  -- An update of rows that fail a test, which fail it afterwards too, is not seen by it.
  pub find_where-update_where_ne :
      (q p : A → Bool) (f : A → A) (xs : List A)
      → ((x : A) → p x ≡ true → (q x ≡ false) × (q (f x) ≡ false))
      → find_where q (update_where p f xs) ≡ find_where q xs
  find_where-update_where_ne q p f [] h = refl
  find_where-update_where_ne q p f (x ∷ xs) h = elim (Bool-cases (p x)) [
    | inl t ↦ rw (t, (h x t).0, (h x t).1) (find_where-update_where_ne q p f xs h)
    | inr n ↦ rw (n, find_where-update_where_ne q p f xs h)
  ]

  pub All-update_where {κ} :
      (P : A → Type κ) (p : A → Bool) (f : A → A) (xs : List A)
      → ((x : A) → p x ≡ true → P x → P (f x))
      → All P xs
      → All P (update_where p f xs)
  All-update_where P p f [] h a = tt
  All-update_where P p f (x ∷ xs) h a = (
    elim (Bool-cases (p x)) [ inl t ↦ rw t (h x t a.0) | inr n ↦ rw n a.0 ],
    All-update_where P p f xs h a.1,
  )

module _ {ℓ κ} {A : Type ℓ} (P : A → Type κ) where
  pub All-take : (n : ℕ) (xs : List A) → All P xs → All P (take n xs)
  All-take zero xs h = tt
  All-take (suc n) [] h = tt
  All-take (suc n) (x ∷ xs) h = (h.0, All-take n xs h.1)

  pub All-filter : (p : A → Bool) (xs : List A) → All P xs → All P (filter p xs)
  All-filter p [] h = tt
  All-filter p (x ∷ xs) h = elim (Bool-cases (p x)) [
    | inl t ↦ rw t (h.0, All-filter p xs h.1)
    | inr f ↦ rw f (All-filter p xs h.1)
  ]

abbrev pub Bytes : Type 0
Bytes = List ℕ

abbrev pub bytes_eq : Bytes → Bytes → Bool
bytes_eq [] [] = true
bytes_eq [] (_ ∷ _) = false
bytes_eq (_ ∷ _) [] = false
bytes_eq (a ∷ s) (b ∷ t) = a == b && bytes_eq s t

pub bytes_eq_refl : (s : Bytes) → bytes_eq s s ≡ true
bytes_eq_refl [] = refl
bytes_eq_refl (a ∷ s) = ground (arith, bytes_eq_refl s)

pub eq_of_bytes_eq : (s t : Bytes) → bytes_eq s t ≡ true → s ≡ t
eq_of_bytes_eq [] [] h = refl
eq_of_bytes_eq [] (_ ∷ _) h = cc
eq_of_bytes_eq (_ ∷ _) [] h = cc
eq_of_bytes_eq (a ∷ s) (b ∷ t) h = ground (arith, eq_of_bytes_eq s t)

-- Python's truth of a value that may be None: neither None nor empty.
abbrev pub is_filled : Option Bytes → Bool
is_filled none = false
is_filled (some []) = false
is_filled (some (_ ∷ _)) = true
