-- ===== src/Lookup/Complete.antt =====
-- The windows of a scan against the search of all candidates at once, which the code never does.
use picture_stage.Base.{
  ℕ, suc, ◌-◌, ◌≤◌, ◌<◌, ◌≡◌, refl, ◌⊎◌, inl, inr, Bool, true, false, ◌&&◌, ◌||◌, none, some, List,
  [], ◌∷◌, arith, length, take, drop, any, contains, find_where-test, find_where-none,
  find_where-any, Bool-cases, Option-cases, ltb, get_elem?, keys_after, keys_after-contains_all,
  get_elem?-take, get_elem?-length, take-take, length-take, take_all, contains-take-drop,
}
use mathlib.Core.Path.{subst}
use picture_stage.Lookup.Scan.{hit, more, over, end_of_window, check_window, scan}

-- Whether a row with one of the keys is accepted.
abbrev pub any_accepted : {A : Type 0} → (A → ℕ) → (A → Bool) → List A → List ℕ → Bool
any_accepted key accepts rows keys = any (λ x. contains (key x) keys && accepts x) rows

module _ {A : Type 0} (key : A → ℕ) (accepts : A → Bool) where
  -- Rows of the first window are found there, or else further on.
  any_accepted-take-drop :
      (rows : List A) (n : ℕ) (keys : List ℕ)
      → any_accepted key accepts rows keys ≡ (
          any_accepted key accepts rows (take n keys)
          || any_accepted key accepts rows (drop n keys))
  any_accepted-take-drop [] n keys = refl
  any_accepted-take-drop (x ∷ rows) n keys =
      rw (contains-take-drop (key x) n keys, any_accepted-take-drop rows n keys) (ground arith)

  end_of_window-cases :
      (v : ℕ) (left : List ℕ)
      → ((length left ≤ suc v) × (end_of_window {A = A} (suc v) (take (suc (suc v)) left) ≡ over))
        ⊎ ((k : ℕ) × (suc v < length left)
            × (get_elem? left v ≡ some k)
            × (end_of_window {A = A} (suc v) (take (suc (suc v)) left) ≡ more k))
  unfolding end_of_window
  end_of_window-cases v left =
      let size = length-take (suc (suc v)) left in
      elim (Bool-cases (ltb (suc v) (length (take (suc (suc v)) left)))) [
        | inl t ↦
            let long : suc v < length left = ground (arith, size, t) in
            let same = get_elem?-take v (suc (suc v)) left (ground arith) in
            let before : suc v - 1 ≡ v = omega arith in
            let (k, read) = get_elem?-length v left (ground (arith, long)) in
            inr (k, long, read, rw t (rw (before, same, read) refl))
        | inr f ↦ inl (ground (arith, size, f), rw f refl)
      ]

  -- What a window's scan says: a hit is an accepted row; the end means that no key leads to one;
  -- else one is found among the keys behind the window if among all.
  pub data Scanned (rows : List A) (v : ℕ) (left : List ℕ) : Type 0 where
    scanned_hit :
        (a : A)
        → accepts a ≡ true
        → any_accepted key accepts rows left ≡ true
        → scan key accepts rows (suc v) left ≡ hit a
        → Scanned rows v left
    scanned_more :
        (k : ℕ)
        → suc v < length left
        → get_elem? left v ≡ some k
        → any_accepted key accepts rows left ≡ any_accepted key accepts rows (drop (suc v) left)
        → scan key accepts rows (suc v) left ≡ more k
        → Scanned rows v left
    scanned_over :
        any_accepted key accepts rows left ≡ false
        → scan key accepts rows (suc v) left ≡ over
        → Scanned rows v left

  scan_missed :
      (rows : List A) (v : ℕ) (left : List ℕ)
      → check_window key accepts (take (suc v) left) rows ≡ none
      → Scanned rows v left
  unfolding scan
  scan_missed rows v left e =
      let missed =
        find_where-none (λ x. contains (key x) (take (suc v) left) && accepts x) rows e in
      let parts = any_accepted-take-drop rows (suc v) left in
      elim (end_of_window-cases v left) [
        | inl (short, ends) ↦
            let whole = take_all (suc v) left short in
            scanned_over (subst (λ ks. any_accepted key accepts rows ks ≡ false) whole missed)
              (rw (take-take (suc v) left, e) ends)
        | inr (k, long, read, goes) ↦
            scanned_more k long read (ground (arith, parts, missed))
              (rw (take-take (suc v) left, e) goes)
      ]

  pub scan-Scanned : (rows : List A) (v : ℕ) (left : List ℕ) → Scanned rows v left
  unfolding scan
  scan-Scanned rows v left =
      elim (Option-cases (check_window key accepts (take (suc v) left) rows)) [
        | inl e ↦ scan_missed rows v left e
        | inr (a, e) ↦
            let test : A → Bool = λ x. contains (key x) (take (suc v) left) && accepts x in
            let passed = find_where-test test rows e in
            let there = find_where-any test rows e in
            let parts = any_accepted-take-drop rows (suc v) left in
            scanned_hit a (ground (arith, passed)) (ground (arith, parts, there))
              (rw (take-take (suc v) left, e) refl)
      ]

  any_accepted_ext :
      (keys ids : List ℕ)
      → ((k : ℕ) → contains k keys ≡ contains k ids)
      → (rows : List A) → any_accepted key accepts rows keys ≡ any_accepted key accepts rows ids
  any_accepted_ext keys ids same [] = refl
  any_accepted_ext keys ids same (x ∷ rows) =
      rw (same (key x), any_accepted_ext keys ids same rows) refl

  -- From the start, the ordered keys lead to the same rows as the ids.
  pub any_accepted-keys_after :
      (rows : List A) (ids : List ℕ)
      → any_accepted key accepts rows (keys_after none ids) ≡ any_accepted key accepts rows ids
  any_accepted-keys_after rows ids =
      any_accepted_ext (keys_after none ids) ids (λ k. keys_after-contains_all k ids) rows
