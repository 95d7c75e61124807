-- ===== src/Base/Paging.antt =====
-- Reading on, in the order of a key, behind a row that was read.
use Prim.Native.Nat.{ℕ, zero, suc}
use mathlib.Core.Path.{◌≡◌, refl, subst, sym, ap, ◌∙◌}
use mathlib.Core.Logic.{inl, inr}
use mathlib.Core.Bool.{Bool, true, false}
use mathlib.Core.Option.{Option, none, some}
use mathlib.Core.List.{List, [], ◌∷◌}
use picture_stage.Base.Tests.{Bool-cases}
use picture_stage.Base.Lists.{drop, filter}
use picture_stage.Base.Tables.{All}
use picture_stage.Base.Windows.{get_elem?}
use picture_stage.Base.Keysets.{
  order_by, is_behind, IsOrdered, AreComparable, AreComparable-filter, All-order_by,
  order_by-IsOrdered, filter-order_by,
}

module _ {A : Type 0} {K : Type 0} (key : A → K) (lt : K → K → Bool) where
  module _ (trans : (a b c : K) → lt a b ≡ true → lt b c ≡ true → lt a c ≡ true) where
    filter-behind_either :
        (o : Option K) (c : K) (xs : List A)
        → ((x : A) → lt c (key x) ≡ true → is_behind key lt o x ≡ true)
        → filter (is_behind key lt (some c)) (filter (is_behind key lt o) xs)
          ≡ filter (is_behind key lt (some c)) xs
    filter-behind_either o c [] h = refl
    filter-behind_either o c (x ∷ xs) h = elim (Bool-cases (lt c (key x))) [
      | inl t ↦ let passes = h x t in rw (passes, t, filter-behind_either o c xs h) refl
      | inr f ↦ elim (Bool-cases (is_behind key lt o x)) [
        | inl b ↦ rw (b, f, filter-behind_either o c xs h) refl
        | inr n ↦ rw (n, f, filter-behind_either o c xs h) refl
      ]
    ]

    All_get_elem? :
        (P : A → Type 0) (xs : List A) (i : ℕ) {x : A} → All P xs → get_elem? xs i ≡ some x → P x
    All_get_elem? P [] i h e = cc
    All_get_elem? P (y ∷ xs) zero {x = x} h e = let same : y ≡ x = cc in subst P same h.0
    All_get_elem? P (y ∷ xs) (suc i) h e = All_get_elem? P xs i h.1 e

    filter_whole :
        (c : K) (xs : List A)
        → All (λ y. lt c (key y) ≡ true) xs
        → filter (is_behind key lt (some c)) xs ≡ xs
    filter_whole c [] h = refl
    filter_whole c (x ∷ xs) h = rw (h.0, filter_whole c xs h.1) refl

    module _ (irrefl : (a : K) → lt a a ≡ false) where
      asym : (a b : K) → lt a b ≡ true → lt b a ≡ false
      asym a b h = elim (Bool-cases (lt b a)) [
        | inl t ↦ let loop = trans a b a h t in let never = irrefl a in cc
        | inr f ↦ f
      ]

      -- In order, the rows behind one of them are those that follow it.
      pub filter_behind-drop :
          (i : ℕ) (xs : List A) {x : A}
          → IsOrdered key lt xs
          → get_elem? xs i ≡ some x
          → filter (is_behind key lt (some (key x))) xs ≡ drop (suc i) xs
      filter_behind-drop i [] o e = cc
      filter_behind-drop zero (y ∷ xs) {x = x} o e =
          let same : y ≡ x = cc in
          subst (λ (z : A). filter (is_behind key lt (some (key z))) (y ∷ xs) ≡ xs) same
            (rw (irrefl (key y)) (filter_whole (key y) xs o.0))
      filter_behind-drop (suc i) (y ∷ xs) {x = x} o e =
          let later = All_get_elem? (λ z. lt (key y) (key z) ≡ true) xs i o.0 e in
          rw (asym (key y) (key x) later) (filter_behind-drop i xs o.1 e)

      All-filter_test : (p : A → Bool) (xs : List A) → All (λ x. p x ≡ true) (filter p xs)
      All-filter_test p [] = tt
      All-filter_test p (x ∷ xs) = elim (Bool-cases (p x)) [
        | inl t ↦ rw t (t, All-filter_test p xs)
        | inr f ↦ rw f (All-filter_test p xs)
      ]

      is_behind_trans :
          (o : Option K) (x y : A)
          → is_behind key lt o x ≡ true
          → lt (key x) (key y) ≡ true
          → is_behind key lt o y ≡ true
      is_behind_trans none x y h l = refl
      is_behind_trans (some c) x y h l = trans c (key x) (key y) h l

      -- Reading on behind a row that was read gives what followed it.
      pub order_by-drop :
          (rows : List A) (o : Option K) (i : ℕ) {x : A}
          → AreComparable key lt rows
          → get_elem? (order_by key lt (filter (is_behind key lt o) rows)) i ≡ some x
          → order_by key lt (filter (is_behind key lt (some (key x))) rows)
            ≡ drop (suc i) (order_by key lt (filter (is_behind key lt o) rows))
      order_by-drop rows o i {x = x} h e =
          let read = order_by key lt (filter (is_behind key lt o) rows) in
          let all_behind =
            All-order_by key lt (λ y. is_behind key lt o y ≡ true)
              (filter (is_behind key lt o) rows) (All-filter_test (is_behind key lt o) rows) in
          let there = All_get_elem? (λ y. is_behind key lt o y ≡ true) read i all_behind e in
          let rest = filter-behind_either o (key x) rows (λ y l. is_behind_trans o x y there l) in
          let ordered =
            order_by-IsOrdered key lt trans (filter (is_behind key lt o) rows)
              (AreComparable-filter key lt (is_behind key lt o) rows h) in
          sym (ap (order_by key lt) rest)
          ∙ sym (filter-order_by key lt trans (key x) (filter (is_behind key lt o) rows))
          ∙ filter_behind-drop i read ordered e
