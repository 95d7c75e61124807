-- ===== src/Base/Keysets.antt =====
-- Reading rows in the order of a key, page by page: each page starts behind the last key of the
-- page before it.
use Prim.Native.Nat.{suc}
use mathlib.Core.Path.{◌≡◌, refl, ap, ◌∙◌}
use mathlib.Core.Logic.{inl, inr}
use mathlib.Core.Bool.{Bool, true, ◌||◌}
use mathlib.Core.Option.{Option, none, some}
use mathlib.Core.List.{List, [], ◌∷◌}
use picture_stage.Base.Tests.{Bool-cases, if◌then◌else◌}
use picture_stage.Base.Lists.{length, filter}
use picture_stage.Base.Tables.{All, All-filter}

module _ {A : Type 0} {K : Type 0} (key : A → K) (lt : K → K → Bool) where
  abbrev pub insert_by : A → List A → List A
  insert_by x [] = x ∷ []
  insert_by x (y ∷ ys) =
      let rest = insert_by x ys in if lt (key x) (key y) then x ∷ y ∷ ys else y ∷ rest

  -- `order by` the key.
  abbrev pub order_by : List A → List A
  order_by [] = []
  order_by (x ∷ xs) = insert_by x (order_by xs)

  -- `key > cursor`, where there is one, in the direction of the order.
  abbrev pub is_behind : Option K → A → Bool
  is_behind none x = true
  is_behind (some cursor) x = lt cursor (key x)

  abbrev pub IsOrdered : List A → Type 0
  IsOrdered [] = Unit
  IsOrdered (x ∷ xs) = All (λ y. lt (key x) (key y) ≡ true) xs × IsOrdered xs

  -- No two rows have the same key.
  abbrev pub AreComparable : List A → Type 0
  AreComparable [] = Unit
  AreComparable (x ∷ xs) =
      All (λ y. (lt (key x) (key y) || lt (key y) (key x)) ≡ true) xs × AreComparable xs

  pub AreComparable-filter :
      (p : A → Bool) (xs : List A) → AreComparable xs → AreComparable (filter p xs)
  AreComparable-filter p [] h = tt
  AreComparable-filter p (x ∷ xs) h = elim (Bool-cases (p x)) [
    | inl t ↦ rw t (
      All-filter (λ y. (lt (key x) (key y) || lt (key y) (key x)) ≡ true) p xs h.0,
      AreComparable-filter p xs h.1,
    )
    | inr f ↦ rw f (AreComparable-filter p xs h.1)
  ]

  All-insert_by : (P : A → Type 0) (x : A) (xs : List A) → P x → All P xs → All P (insert_by x xs)
  All-insert_by P x [] h hs = (h, tt)
  All-insert_by P x (y ∷ ys) h hs = elim (Bool-cases (lt (key x) (key y))) [
    | inl t ↦ rw t (h, hs)
    | inr f ↦ rw f (hs.0, All-insert_by P x ys h hs.1)
  ]

  pub All-order_by : (P : A → Type 0) (xs : List A) → All P xs → All P (order_by xs)
  All-order_by P [] h = tt
  All-order_by P (x ∷ xs) h = All-insert_by P x (order_by xs) h.0 (All-order_by P xs h.1)

  length-insert_by : (x : A) (xs : List A) → length (insert_by x xs) ≡ suc (length xs)
  length-insert_by x [] = refl
  length-insert_by x (y ∷ ys) = elim (Bool-cases (lt (key x) (key y))) [
    | inl t ↦ rw t refl
    | inr f ↦ rw f (ap suc (length-insert_by x ys))
  ]

  pub length-order_by : (xs : List A) → length (order_by xs) ≡ length xs
  length-order_by [] = refl
  length-order_by (x ∷ xs) = length-insert_by x (order_by xs) ∙ ap suc (length-order_by xs)

  pub filter_from_start : (xs : List A) → filter (is_behind none) xs ≡ xs
  filter_from_start [] = refl
  filter_from_start (x ∷ xs) = rw (filter_from_start xs) refl

  module _ (trans : (a b c : K) → lt a b ≡ true → lt b c ≡ true → lt a c ≡ true) where
    All-behind :
        (a b : K) (xs : List A)
        → lt a b ≡ true
        → All (λ y. lt b (key y) ≡ true) xs
        → All (λ y. lt a (key y) ≡ true) xs
    All-behind a b [] h hs = tt
    All-behind a b (x ∷ xs) h hs = (trans a b (key x) h hs.0, All-behind a b xs h hs.1)

    insert_by-IsOrdered :
        (x : A) (xs : List A)
        → All (λ y. (lt (key x) (key y) || lt (key y) (key x)) ≡ true) xs
        → IsOrdered xs
        → IsOrdered (insert_by x xs)
    insert_by-IsOrdered x [] c o = (tt, tt)
    insert_by-IsOrdered x (y ∷ ys) c o = elim (Bool-cases (lt (key x) (key y))) [
      | inl t ↦ rw t ((t, All-behind (key x) (key y) ys t o.0), o)
      | inr f ↦
          let behind : lt (key y) (key x) ≡ true = rw f at (c.0) in
          rw f (
            All-insert_by (λ z. lt (key y) (key z) ≡ true) x ys behind o.0,
            insert_by-IsOrdered x ys c.1 o.1,
          )
    ]

    pub order_by-IsOrdered : (xs : List A) → AreComparable xs → IsOrdered (order_by xs)
    order_by-IsOrdered [] h = tt
    order_by-IsOrdered (x ∷ xs) h =
        insert_by-IsOrdered x (order_by xs)
          (All-order_by (λ y. (lt (key x) (key y) || lt (key y) (key x)) ≡ true) xs h.0)
          (order_by-IsOrdered xs h.1)

    pub filter-insert_by :
        (c : K) (x : A) (xs : List A)
        → filter (is_behind (some c)) (insert_by x xs) ≡ (
            if lt c (key x)
            then insert_by x (filter (is_behind (some c)) xs)
            else filter (is_behind (some c)) xs)
    filter-insert_by c x [] = refl
    filter-insert_by c x (y ∷ ys) = elim (Bool-cases (lt (key x) (key y))) [
      | inl t ↦ elim (Bool-cases (lt c (key x))) [
        | inl a ↦ let b = trans c (key x) (key y) a t in rw (t, a, b, t) refl
        | inr n ↦ rw (t, n) refl
      ]
      | inr f ↦
          let rest = filter-insert_by c x ys in
          elim (Bool-cases (lt c (key x))) [
            | inl a ↦
                let moved : filter (is_behind (some c)) (insert_by x ys)
                    ≡ insert_by x (filter (is_behind (some c)) ys) =
                  rw a at rest in
                elim (Bool-cases (lt c (key y))) [
                  | inl b ↦ rw (f, a, b, moved, f) refl
                  | inr n ↦ rw (f, a, n, moved) refl
                ]
            | inr o ↦
                let kept : filter (is_behind (some c)) (insert_by x ys)
                    ≡ filter (is_behind (some c)) ys =
                  rw o at rest in
                rw (f, o, kept) refl
          ]
    ]

    pub filter-order_by :
        (c : K) (xs : List A)
        → filter (is_behind (some c)) (order_by xs) ≡ order_by (filter (is_behind (some c)) xs)
    filter-order_by c [] = refl
    filter-order_by c (x ∷ xs) = elim (Bool-cases (lt c (key x))) [
      | inl t ↦ rw (filter-insert_by c x (order_by xs), t, filter-order_by c xs) refl
      | inr f ↦ rw (filter-insert_by c x (order_by xs), f, filter-order_by c xs) refl
    ]
