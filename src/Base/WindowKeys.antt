-- ===== src/Base/WindowKeys.antt =====
-- Which keys a window reads, and how many.
use Prim.Native.Nat.{ℕ, zero, suc, ◌≤◌}
use mathlib.Core.Path.{◌≡◌, refl}
use mathlib.Core.Logic.{inl, inr}
use mathlib.Core.Bool.{Bool, true}
use mathlib.Core.Option.{Option, none, some}
use mathlib.Core.List.{List, [], ◌∷◌}
use native.Mathlib.Omega.{arith}
use picture_stage.Base.Tests.{Bool-cases}
use picture_stage.Base.Lists.{
  length, filter, contains, insert_sorted, sorted_set, contains-sorted_set,
}
use picture_stage.Base.Windows.{get_elem?, is_after, keys_after}

pub get_elem?-contains : (xs : List ℕ) (i k : ℕ) → get_elem? xs i ≡ some k → contains k xs ≡ true
get_elem?-contains [] i k e = cc
get_elem?-contains (x ∷ xs) zero k e = let same : x ≡ k = cc in ground (arith, same)
get_elem?-contains (x ∷ xs) (suc i) k e = ground (arith, get_elem?-contains xs i k e)

contains-filter :
    (b : ℕ) (p : ℕ → Bool) (xs : List ℕ) → contains b (filter p xs) ≡ true → contains b xs ≡ true
contains-filter b p [] h = h
contains-filter b p (x ∷ xs) h = elim (Bool-cases (p x)) [
  | inl t ↦
      let rest : contains b (x ∷ filter p xs) ≡ true = rw t at h in
      ground (arith, rest, contains-filter b p xs)
  | inr f ↦
      let rest : contains b (filter p xs) ≡ true = rw f at h in
      ground (arith, contains-filter b p xs rest)
]

pub keys_after-contains :
    (c : Option ℕ) (keys : List ℕ) (i k : ℕ)
    → get_elem? (keys_after c keys) i ≡ some k
    → contains k keys ≡ true
keys_after-contains c keys i k e =
    let read = get_elem?-contains (keys_after c keys) i k e in
    let same = contains-sorted_set k (filter (is_after c) keys) in
    contains-filter k (is_after c) keys (ground (arith, read, same))

length-insert_sorted : (a : ℕ) (xs : List ℕ) → length (insert_sorted a xs) ≤ suc (length xs)
length-insert_sorted a [] = ground arith
length-insert_sorted a (x ∷ xs) = ground (arith, length-insert_sorted a xs)

length-sorted_set : (xs : List ℕ) → length (sorted_set xs) ≤ length xs
length-sorted_set [] = ground arith
length-sorted_set (x ∷ xs) =
    omega (arith, length-insert_sorted x (sorted_set xs), length-sorted_set xs)

length-filter : (p : ℕ → Bool) (xs : List ℕ) → length (filter p xs) ≤ length xs
length-filter p [] = ground arith
length-filter p (x ∷ xs) = ground (arith, length-filter p xs)

pub length-keys_after : (c : Option ℕ) (keys : List ℕ) → length (keys_after c keys) ≤ length keys
length-keys_after c keys =
    omega (arith, length-sorted_set (filter (is_after c) keys), length-filter (is_after c) keys)

filter_after_start : (keys : List ℕ) → filter (is_after none) keys ≡ keys
filter_after_start [] = refl
filter_after_start (x ∷ keys) = rw (filter_after_start keys) refl

pub keys_after-contains_all :
    (b : ℕ) (keys : List ℕ) → contains b (keys_after none keys) ≡ contains b keys
keys_after-contains_all b keys = rw (filter_after_start keys) (contains-sorted_set b keys)
