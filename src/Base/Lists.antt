-- ===== src/Base/Lists.antt =====
-- Lists over the native numbers, filters by Boolean tests, and Python's `sorted(set(xs))`.
use Prim.Native.Nat.{ℕ, zero, suc, ◌+◌, min}
use mathlib.Core.Path.{◌≡◌, refl}
use mathlib.Core.Logic.{inl, inr}
use mathlib.Core.Bool.{Bool, true, false, not, ◌&&◌, ◌||◌}
use mathlib.Core.List.{List, [], ◌∷◌, ◌++◌, map}
use native.Mathlib.Omega.{arith}
use picture_stage.Base.Tests.{Bool-cases, ltb, ◌==◌, if◌then◌else◌}

module _ {ℓ} {A : Type ℓ} where
  abbrev pub length : List A → ℕ
  length [] = 0
  length (x ∷ xs) = suc (length xs)

  abbrev pub take : ℕ → List A → List A
  take zero xs = []
  take (suc n) [] = []
  take (suc n) (x ∷ xs) = x ∷ take n xs

  abbrev pub drop : ℕ → List A → List A
  drop zero xs = xs
  drop (suc n) [] = []
  drop (suc n) (x ∷ xs) = drop n xs

  abbrev pub filter : (A → Bool) → List A → List A
  filter p [] = []
  filter p (x ∷ xs) = let rest = filter p xs in if p x then x ∷ rest else rest

  abbrev pub any : (A → Bool) → List A → Bool
  any p [] = false
  any p (x ∷ xs) = p x || any p xs

  abbrev pub all : (A → Bool) → List A → Bool
  all p [] = true
  all p (x ∷ xs) = p x && all p xs

  -- The sum of a field over the rows that a test admits.
  abbrev pub sum_where : (A → Bool) → (A → ℕ) → List A → ℕ
  sum_where p f [] = 0
  sum_where p f (x ∷ xs) = (if p x then f x else 0) + sum_where p f xs

  abbrev pub count_where : (A → Bool) → List A → ℕ
  count_where p xs = sum_where p (λ _. 1) xs

module _ {ℓ} {A : Type ℓ} where
  pub length-take : (n : ℕ) (xs : List A) → length (take n xs) ≡ min n (length xs)
  length-take zero xs = omega arith
  length-take (suc n) [] = omega arith
  length-take (suc n) (x ∷ xs) = omega (arith, length-take n xs)

  -- What a deletion takes from a sum is the part of it that the deleted rows carried.
  pub sum_where-filter :
      (q p : A → Bool) (f : A → ℕ) (xs : List A)
      → sum_where q f (filter (λ x. not (p x)) xs) + sum_where (λ x. q x && p x) f xs
        ≡ sum_where q f xs
  sum_where-filter q p f [] = refl
  sum_where-filter q p f (x ∷ xs) = ground (arith, sum_where-filter q p f xs)

abbrev pub contains : ℕ → List ℕ → Bool
contains a xs = any (λ x. x == a) xs

-- One insertion of `sorted(set(xs))`: in order, an equal element is kept once.
abbrev pub insert_sorted : ℕ → List ℕ → List ℕ
insert_sorted a [] = a ∷ []
insert_sorted a (x ∷ xs) =
    let rest = insert_sorted a xs in
    if ltb a x then a ∷ x ∷ xs else if a == x then x ∷ xs else x ∷ rest

abbrev pub sorted_set : List ℕ → List ℕ
sorted_set [] = []
sorted_set (x ∷ xs) = insert_sorted x (sorted_set xs)

pub contains-insert_sorted :
    (b a : ℕ) (xs : List ℕ) → contains b (insert_sorted a xs) ≡ (a == b || contains b xs)
contains-insert_sorted b a [] = ground arith
contains-insert_sorted b a (x ∷ xs) = ground (arith, contains-insert_sorted b a xs)

-- Sorting and removing duplicates keeps exactly the elements.
pub contains-sorted_set : (b : ℕ) (xs : List ℕ) → contains b (sorted_set xs) ≡ contains b xs
contains-sorted_set b [] = refl
contains-sorted_set b (x ∷ xs) =
    ground (arith, contains-insert_sorted b x (sorted_set xs), contains-sorted_set b xs)

module _ {ℓ} {A : Type ℓ} where
  abbrev pub concat_map : (A → List ℕ) → List A → List ℕ
  concat_map f [] = []
  concat_map f (x ∷ xs) = f x ++ concat_map f xs

  abbrev pub is_empty : List A → Bool
  is_empty [] = true
  is_empty (_ ∷ _) = false

  pub any-filter-not : (p : A → Bool) (xs : List A) → any p (filter (λ x. not (p x)) xs) ≡ false
  any-filter-not p [] = refl
  any-filter-not p (x ∷ xs) = ground (arith, any-filter-not p xs)

  -- The rows whose keys are collected under a test are gone when all rows with those keys are.
  pub any-filter_keys :
      (q : A → Bool) (key : A → ℕ) (keys : List ℕ) (xs : List A)
      → ((k : ℕ) → contains k (map key (filter q xs)) ≡ true → contains k keys ≡ true)
      → any q (filter (λ x. not (contains (key x) keys)) xs) ≡ false
  any-filter_keys q key keys [] h = refl
  any-filter_keys q key keys (x ∷ xs) h = elim (Bool-cases (q x)) [
    | inl t ↦
        let gone : contains (key x) keys ≡ true = h (key x) (rw t (ground arith)) in
        rw gone (any-filter_keys q key keys xs (λ k c. h k (rw t (ground (arith, c)))))
    | inr f ↦ ground (arith, f, any-filter_keys q key keys xs (λ k c. h k (rw f c)))
  ]

pub contains-append :
    (k : ℕ) (xs ys : List ℕ) → contains k (xs ++ ys) ≡ (contains k xs || contains k ys)
contains-append k [] ys = refl
contains-append k (x ∷ xs) ys = ground (arith, contains-append k xs ys)
