-- ===== src/Base/Windows.antt =====
-- Reading an ordered column in windows: the first keys after a cursor, of a list of distinct keys.
use Prim.Native.Nat.{ℕ, zero, suc, ◌-◌, ◌≤◌, ◌<◌}
use mathlib.Core.Path.{◌≡◌, refl, subst}
use mathlib.Core.Logic.{inl, inr}
use mathlib.Core.Bool.{Bool, true, ◌||◌}
use mathlib.Core.Option.{Option, none, some}
use mathlib.Core.List.{List, [], ◌∷◌}
use native.Mathlib.Omega.{arith}
use picture_stage.Base.Tests.{ltb, ◌==◌, Bool-cases, if◌then◌else◌}
use picture_stage.Base.Lists.{length, take, drop, filter, contains, insert_sorted, sorted_set}
use picture_stage.Base.Tables.{All}

abbrev pub get_elem? {ℓ} : {A : Type ℓ} → List A → ℕ → Option A
get_elem? [] i = none
get_elem? (x ∷ xs) zero = some x
get_elem? (x ∷ xs) (suc i) = get_elem? xs i

-- `key > cursor`, where there is one.
abbrev pub is_after : Option ℕ → ℕ → Bool
is_after none k = true
is_after (some cursor) k = ltb cursor k

-- `select key … where key > cursor order by key`: the keys are a primary key.
abbrev pub keys_after : Option ℕ → List ℕ → List ℕ
keys_after cursor keys = sorted_set (filter (is_after cursor) keys)

abbrev pub IsSorted : List ℕ → Type 0
IsSorted [] = Unit
IsSorted (x ∷ xs) = All (λ y. x < y) xs × IsSorted xs

All-lt-insert_sorted :
    (b a : ℕ) (xs : List ℕ) → b < a → All (λ y. b < y) xs → All (λ y. b < y) (insert_sorted a xs)
All-lt-insert_sorted b a [] lt h = (lt, tt)
All-lt-insert_sorted b a (x ∷ xs) lt h = ground (arith, All-lt-insert_sorted b a xs lt h.1)

All-lt_trans : (a b : ℕ) (xs : List ℕ) → a < b → All (λ y. b < y) xs → All (λ y. a < y) xs
All-lt_trans a b [] lt h = tt
All-lt_trans a b (x ∷ xs) lt h = (omega (arith, h.0), All-lt_trans a b xs lt h.1)

insert_sorted-IsSorted : (a : ℕ) (xs : List ℕ) → IsSorted xs → IsSorted (insert_sorted a xs)
insert_sorted-IsSorted a [] h = (tt, tt)
insert_sorted-IsSorted a (x ∷ xs) h =
    ground
      (arith, insert_sorted-IsSorted a xs h.1, All-lt-insert_sorted x a xs, All-lt_trans a x xs)

pub sorted_set-IsSorted : (xs : List ℕ) → IsSorted (sorted_set xs)
sorted_set-IsSorted [] = tt
sorted_set-IsSorted (x ∷ xs) = insert_sorted-IsSorted x (sorted_set xs) (sorted_set-IsSorted xs)

-- Filtering by a cursor and ordering commute.
filter-insert_sorted :
    (c a : ℕ) (xs : List ℕ)
    → filter (ltb c) (insert_sorted a xs)
      ≡ (if ltb c a then insert_sorted a (filter (ltb c) xs) else filter (ltb c) xs)
filter-insert_sorted c a [] = ground arith
filter-insert_sorted c a (x ∷ xs) = ground (arith, filter-insert_sorted c a xs)

filter-sorted_set :
    (c : ℕ) (xs : List ℕ) → filter (ltb c) (sorted_set xs) ≡ sorted_set (filter (ltb c) xs)
filter-sorted_set c [] = refl
filter-sorted_set c (x ∷ xs) = elim (Bool-cases (ltb c x)) [
  | inl t ↦ rw (filter-insert_sorted c x (sorted_set xs), t, filter-sorted_set c xs) refl
  | inr f ↦ rw (filter-insert_sorted c x (sorted_set xs), f, filter-sorted_set c xs) refl
]

filter-filter :
    (c : Option ℕ) (k : ℕ) (xs : List ℕ)
    → is_after c k ≡ true
    → filter (ltb k) (filter (is_after c) xs) ≡ filter (ltb k) xs
filter-filter none k [] h = refl
filter-filter none k (x ∷ xs) h = ground (arith, filter-filter none k xs h)
filter-filter (some c) k [] h = refl
filter-filter (some c) k (x ∷ xs) h = ground (arith, filter-filter (some c) k xs h)

-- Reading on from a key that was read continues the first reading.
pub keys_after-filter :
    (c : Option ℕ) (k : ℕ) (keys : List ℕ)
    → is_after c k ≡ true
    → keys_after (some k) keys ≡ filter (ltb k) (keys_after c keys)
keys_after-filter c k keys h =
    rw (filter-sorted_set k (filter (is_after c) keys), filter-filter c k keys h) refl

filter-All : (p : ℕ → Bool) (xs : List ℕ) → All (λ x. p x ≡ true) xs → filter p xs ≡ xs
filter-All p [] h = refl
filter-All p (x ∷ xs) h = rw (h.0, filter-All p xs h.1) refl

All-ltb : (k : ℕ) (xs : List ℕ) → All (λ y. k < y) xs → All (λ y. ltb k y ≡ true) xs
All-ltb k [] h = tt
All-ltb k (x ∷ xs) h = (ground (arith, h.0), All-ltb k xs h.1)

get_elem?-All : (P : ℕ → Type 0) (xs : List ℕ) (i k : ℕ) → All P xs → get_elem? xs i ≡ some k → P k
get_elem?-All P [] i k h e = cc
get_elem?-All P (x ∷ xs) zero k h e = let same : x ≡ k = cc in subst P same h.0
get_elem?-All P (x ∷ xs) (suc i) k h e = get_elem?-All P xs i k h.1 e

-- In a sorted list the keys beyond one that stands in it are those behind it.
pub filter-drop :
    (k i : ℕ) (xs : List ℕ)
    → IsSorted xs
    → get_elem? xs i ≡ some k
    → filter (ltb k) xs ≡ drop (suc i) xs
filter-drop k i [] s e = cc
filter-drop k zero (x ∷ xs) s e =
    let same : x ≡ k = cc in
    let keeps = filter-All (ltb x) xs (All-ltb x xs s.0) in ground (arith, same, keeps)
filter-drop k (suc i) (x ∷ xs) s e =
    let later : x < k = get_elem?-All (λ y. x < y) xs i k s.0 e in
    let behind = filter-drop k i xs s.1 e in ground (arith, later, behind)

All-insert_sorted :
    (P : ℕ → Type 0) (a : ℕ) (xs : List ℕ) → P a → All P xs → All P (insert_sorted a xs)
All-insert_sorted P a [] h hs = (h, tt)
All-insert_sorted P a (x ∷ xs) h hs = elim (Bool-cases (ltb a x)) [
  | inl t ↦ rw t (h, hs)
  | inr f ↦ elim (Bool-cases (a == x)) [
    | inl e ↦ rw (f, e) hs
    | inr n ↦ rw (f, n) (hs.0, All-insert_sorted P a xs h hs.1)
  ]
]

All-sorted_set : (P : ℕ → Type 0) (xs : List ℕ) → All P xs → All P (sorted_set xs)
All-sorted_set P [] h = tt
All-sorted_set P (x ∷ xs) h = All-insert_sorted P x (sorted_set xs) h.0 (All-sorted_set P xs h.1)

All-filter_test : (p : ℕ → Bool) (xs : List ℕ) → All (λ x. p x ≡ true) (filter p xs)
All-filter_test p [] = tt
All-filter_test p (x ∷ xs) = elim (Bool-cases (p x)) [
  | inl t ↦ rw t (t, All-filter_test p xs)
  | inr f ↦ rw f (All-filter_test p xs)
]

-- A key that is read lies after the cursor.
pub keys_after-get_elem? :
    (c : Option ℕ) (keys : List ℕ) (i k : ℕ)
    → get_elem? (keys_after c keys) i ≡ some k
    → is_after c k ≡ true
keys_after-get_elem? c keys i k =
    get_elem?-All (λ x. is_after c x ≡ true) (keys_after c keys) i k
      (All-sorted_set (λ x. is_after c x ≡ true) (filter (is_after c) keys)
        (All-filter_test (is_after c) keys))

module _ {ℓ} {A : Type ℓ} where
  pub get_elem?-take : (i n : ℕ) (xs : List A) → i < n → get_elem? (take n xs) i ≡ get_elem? xs i
  get_elem?-take i zero xs h = ground (arith, h)
  get_elem?-take i (suc n) [] h = refl
  get_elem?-take zero (suc n) (x ∷ xs) h = refl
  get_elem?-take (suc i) (suc n) (x ∷ xs) h = get_elem?-take i n xs (omega (arith, h))

  pub get_elem?-length : (i : ℕ) (xs : List A) → i < length xs → (k : A) × (get_elem? xs i ≡ some k)
  get_elem?-length i [] h = ground (arith, h)
  get_elem?-length zero (x ∷ xs) h = (x, refl)
  get_elem?-length (suc i) (x ∷ xs) h = get_elem?-length i xs (omega (arith, h))

  pub take-take : (n : ℕ) (xs : List A) → take n (take (suc n) xs) ≡ take n xs
  take-take zero xs = refl
  take-take (suc n) [] = refl
  take-take (suc n) (x ∷ xs) = rw (take-take n xs) refl

  pub length-drop : (n : ℕ) (xs : List A) → length (drop n xs) ≡ length xs - n
  length-drop zero xs = omega arith
  length-drop (suc n) [] = omega arith
  length-drop (suc n) (x ∷ xs) = omega (arith, length-drop n xs)

  pub take_all : (n : ℕ) (xs : List A) → length xs ≤ n → take n xs ≡ xs
  take_all zero [] h = refl
  take_all zero (x ∷ xs) h = ground (arith, h)
  take_all (suc n) [] h = refl
  take_all (suc n) (x ∷ xs) h = rw (take_all n xs (omega (arith, h))) refl

pub contains-take-drop :
    (b n : ℕ) (xs : List ℕ) → contains b xs ≡ (contains b (take n xs) || contains b (drop n xs))
contains-take-drop b zero xs = refl
contains-take-drop b (suc n) [] = refl
contains-take-drop b (suc n) (x ∷ xs) = ground (arith, contains-take-drop b n xs)
