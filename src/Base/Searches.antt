-- ===== src/Base/Searches.antt =====
-- What a search of a table says about its rows.
use mathlib.Core.Path.{◌≡◌, refl}
use mathlib.Core.Logic.{inl, inr}
use mathlib.Core.Bool.{Bool, true, false}
use mathlib.Core.Option.{none, some}
use mathlib.Core.List.{List, [], ◌∷◌}
use picture_stage.Base.Tests.{Bool-cases}
use picture_stage.Base.Lists.{any}
use picture_stage.Base.Tables.{find_where}

module _ {A : Type 0} where
  -- A search that came back empty.
  pub find_where-none :
      (p : A → Bool) (rows : List A) → find_where p rows ≡ none → any p rows ≡ false
  find_where-none p [] e = refl
  find_where-none p (x ∷ rows) e = elim (Bool-cases (p x)) [
    | inl t ↦ let gone = rw t at e in cc
    | inr f ↦ rw f (find_where-none p rows (rw f at e))
  ]

  pub find_where-any :
      (p : A → Bool) (rows : List A) {a : A} → find_where p rows ≡ some a → any p rows ≡ true
  find_where-any p [] e = cc
  find_where-any p (x ∷ rows) e = elim (Bool-cases (p x)) [
    | inl t ↦ rw t refl
    | inr f ↦ rw f (find_where-any p rows (rw f at e))
  ]
