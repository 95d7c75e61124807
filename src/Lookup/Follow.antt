-- ===== src/Lookup/Follow.antt =====
-- A client that repeats its request is answered: the windows move on through the candidates, so
-- enough requests find an accepted row if one exists, and else answer that there is none.
use picture_stage.Base.{
  ℕ, zero, suc, ◌+◌, ◌*◌, ◌≤◌, ◌<◌, ◌≡◌, refl, Bool, true, false, Option, some, List, arith, length,
  drop, contains, keys_after, get_elem?, sorted_set-IsSorted, keys_after-filter, is_after, filter,
  keys_after-get_elem?, keys_after-contains, filter-drop, length-drop,
}
use mathlib.Core.Path.{◌∙◌, sym}
use picture_stage.Lookup.Scan.{
  Cursor, legacy, Answer, found, absent, Write, scan, settle, cookie_after, follow, follow_answer,
}
use picture_stage.Lookup.Complete.{
  any_accepted, scanned_hit, scanned_more, scanned_over, scan-Scanned,
}

-- An answer that agrees with a search of all candidates.
abbrev pub Settles : {A : Type 0} → (A → Bool) → Answer A → Bool → Type 0
Settles {A = A} accepts answer exists =
    (exists ≡ true → (a : A) × (accepts a ≡ true) × (answer ≡ found a))
    × (exists ≡ false → answer ≡ absent)

-- The keys behind the last one that was read.
pub keys_after-drop :
    (c : Option ℕ) (ids : List ℕ) (i k : ℕ)
    → get_elem? (keys_after c ids) i ≡ some k
    → keys_after (some k) ids ≡ drop (suc i) (keys_after c ids)
keys_after-drop c ids i k read =
    keys_after-filter c k ids (keys_after-get_elem? c ids i k read)
    ∙ filter-drop k i (keys_after c ids) (sorted_set-IsSorted (filter (is_after c) ids)) read

module _ {A : Type 0} (accepts : A → Bool) where
  pub found-Settles : (a : A) → accepts a ≡ true → Settles accepts (found a) true
  found-Settles a accepted = ((λ _. (a, accepted, refl)), λ gone. cc)

  pub absent-Settles : Settles accepts absent false
  absent-Settles = ((λ there. cc), λ _. refl)

module _ {A : Type 0} (key : A → ℕ) (accepts : A → Bool) (rows : List A)
    (resolve : Option Cursor → Answer A × Write) (on_hit : A → Write) where
  -- What the client has after an answer and at most so many further requests.
  abbrev pub continue : ℕ → Option Cursor → Answer A × Write → Answer A
  continue n cursor answer =
      follow_answer answer.0 (follow resolve n (cookie_after cursor answer.1))

  -- The legacy windows, from any of them on.
  pub continue-Settles :
      (ids : List ℕ)
      → ((k : ℕ)
          → contains k ids ≡ true
          → resolve (some (legacy k))
            ≡ settle on_hit (scan key accepts rows 64 (keys_after (some k) ids)))
      → (n v : ℕ) (old : Option Cursor) (c : Option ℕ) → v < 64
      → length (keys_after c ids) ≤ suc v + 64 * n
      → Settles accepts
          (continue n old (settle on_hit (scan key accepts rows (suc v) (keys_after c ids))))
          (any_accepted key accepts rows (keys_after c ids))
  unfolding follow
  continue-Settles ids resumes zero v old c small enough =
      elim (scan-Scanned key accepts rows v (keys_after c ids)) [
        | scanned_hit a accepted there eq ↦ rw (eq, there) (found-Settles accepts a accepted)
        | scanned_over gone eq ↦ rw (eq, gone) (absent-Settles accepts)
        | scanned_more k long read same eq ↦ ground (arith, long, enough)
      ]
  continue-Settles ids resumes (suc m) v old c small enough =
      elim (scan-Scanned key accepts rows v (keys_after c ids)) [
        | scanned_hit a accepted there eq ↦ rw (eq, there) (found-Settles accepts a accepted)
        | scanned_over gone eq ↦ rw (eq, gone) (absent-Settles accepts)
        | scanned_more k long read same eq ↦
            let moved = keys_after-drop c ids v k read in
            rw (eq, same, sym moved, resumes k (keys_after-contains c ids v k read))
              (continue-Settles ids resumes m 63 (some (legacy k)) (some k) (omega arith)
                (rw moved (omega (arith, enough, length-drop (suc v) (keys_after c ids)))))
      ]
