-- ===== src/Base/Counts.antt =====
-- Replacing one element of a list, and what that does to a count.
use Prim.Native.Nat.{ℕ, zero, suc, ◌+◌}
use mathlib.Core.Path.{◌≡◌, sym}
use mathlib.Core.Bool.{Bool}
use mathlib.Core.Option.{some}
use mathlib.Core.List.{List, [], ◌∷◌}
use native.Mathlib.Omega.{arith}
use picture_stage.Base.Tests.{if◌then◌else◌}
use picture_stage.Base.Lists.{count_where}
use picture_stage.Base.Windows.{get_elem?}

-- `xs[i] = y`
abbrev pub set_at {ℓ} : {A : Type ℓ} → ℕ → A → List A → List A
set_at i y [] = []
set_at zero y (x ∷ xs) = y ∷ xs
set_at (suc i) y (x ∷ xs) = x ∷ set_at i y xs

abbrev pub one_if : Bool → ℕ
one_if b = if b then 1 else 0

-- A count after an element is replaced.
pub count_where-set_at {ℓ} :
    {A : Type ℓ} (p : A → Bool) (i : ℕ) (y : A) (xs : List A) {x : A}
    → get_elem? xs i ≡ some x
    → count_where p (set_at i y xs) + one_if (p x) ≡ count_where p xs + one_if (p y)
count_where-set_at p i y [] e = cc
count_where-set_at p zero y (z ∷ xs) {x = x} e =
    let same : z ≡ x = cc in rw (sym same) (omega arith)
count_where-set_at p (suc i) y (z ∷ xs) e = omega (arith, count_where-set_at p i y xs e)
