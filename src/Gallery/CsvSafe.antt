-- ===== src/Gallery/CsvSafe.antt =====
-- What a spreadsheet takes for a formula, and that no text of app/galleries/csv_security.py is one.
use picture_stage.Base.{
  ℕ, ◌<◌, ◌≡◌, refl, inl, inr, true, false, ◌⊎◌, List, [], ◌∷◌, Bytes, arith, Bool-cases, contains,
  ◌==◌,
}
use mathlib.Core.Path.{subst}
use picture_stage.Gallery.Csv.{
  lstrip, is_space, formula_signs, starts_formula, starts_control, spreadsheet_text,
}

-- `=`, `+`, `-`, `@` and their full-width forms.
pub data IsSign : ℕ → Type 0 where
  equals : IsSign 61
  plus : IsSign 43
  minus : IsSign 45
  commercial_at : IsSign 64
  wide_equals : IsSign 65309
  wide_plus : IsSign 65291
  wide_minus : IsSign 65293
  wide_at : IsSign 65312

-- A text that starts with such a sign, behind spaces or not.
pub data IsFormula : Bytes → Type 0 where
  signed : {a : ℕ} {s : Bytes} → IsSign a → IsFormula (a ∷ s)
  spaced : {a : ℕ} {s : Bytes} → is_space a ≡ true → IsFormula s → IsFormula (a ∷ s)

pub data IsControlled : Bytes → Type 0 where
  controlled : {a : ℕ} {s : Bytes} → a < 32 → IsControlled (a ∷ s)

-- A text that a spreadsheet may not take as it is.
abbrev pub IsHazard : Bytes → Type 0
IsHazard s = IsControlled s ⊎ IsFormula s

-- The cell that a text becomes: it is safe, and the text itself or, for a hazard, behind an apostrophe.
pub record IsCellOf (text cell : Bytes) : Type 0 where
  pub safe : ¬ IsHazard cell
  pub content : (cell ≡ text) ⊎ (IsHazard text × (cell ≡ 39 ∷ text))

sign_is_no_space : {a : ℕ} → IsSign a → (is_space a ≡ false) × (contains a formula_signs ≡ true)
unfolding is_space
sign_is_no_space equals = (refl, refl)
sign_is_no_space plus = (refl, refl)
sign_is_no_space minus = (refl, refl)
sign_is_no_space commercial_at = (refl, refl)
sign_is_no_space wide_equals = (refl, refl)
sign_is_no_space wide_plus = (refl, refl)
sign_is_no_space wide_minus = (refl, refl)
sign_is_no_space wide_at = (refl, refl)

contains_cons-IsSign :
    (a : ℕ) {k : ℕ} (rest : List ℕ)
    → IsSign k
    → (contains a rest ≡ true → IsSign a)
    → contains a (k ∷ rest) ≡ true
    → IsSign a
contains_cons-IsSign a {k} rest sign others h = elim (Bool-cases (a == k)) [
  | inl t ↦ let same : k ≡ a = ground (arith, t) in subst IsSign same sign
  | inr f ↦ others (ground (arith, f, h))
]

contains_nil-IsSign : (a : ℕ) → contains a [] ≡ true → IsSign a
contains_nil-IsSign a h = let no : false ≡ true = h in absurd (ground (arith, no))

contains-IsSign : (a : ℕ) → contains a formula_signs ≡ true → IsSign a
contains-IsSign a h =
    contains_cons-IsSign a (43 ∷ 45 ∷ 64 ∷ 65309 ∷ 65291 ∷ 65293 ∷ 65312 ∷ []) equals
      (contains_cons-IsSign a (45 ∷ 64 ∷ 65309 ∷ 65291 ∷ 65293 ∷ 65312 ∷ []) plus (
        contains_cons-IsSign a (64 ∷ 65309 ∷ 65291 ∷ 65293 ∷ 65312 ∷ []) minus (
          contains_cons-IsSign a (65309 ∷ 65291 ∷ 65293 ∷ 65312 ∷ []) commercial_at (
            contains_cons-IsSign a (65291 ∷ 65293 ∷ 65312 ∷ []) wide_equals (
              contains_cons-IsSign a (65293 ∷ 65312 ∷ []) wide_plus (
                contains_cons-IsSign a (65312 ∷ []) wide_minus
                  (contains_cons-IsSign a [] wide_at (contains_nil-IsSign a))))))))
      h

IsFormula-starts_formula : {s : Bytes} → IsFormula s → starts_formula (lstrip s) ≡ true
unfolding lstrip
IsFormula-starts_formula (signed sign) =
    let (tight, listed) = sign_is_no_space sign in rw tight listed
IsFormula-starts_formula (spaced space rest) = rw space (IsFormula-starts_formula rest)

starts_formula-IsFormula : (s : Bytes) → starts_formula (lstrip s) ≡ true → IsFormula s
unfolding lstrip
starts_formula-IsFormula [] h = cc
starts_formula-IsFormula (a ∷ s) h = elim (Bool-cases (is_space a)) [
  | inl t ↦ spaced t (starts_formula-IsFormula s (rw t at h))
  | inr f ↦ signed (contains-IsSign a (rw f at h))
]

starts_control-IsControlled : (s : Bytes) → starts_control s ≡ true → IsControlled s
starts_control-IsControlled [] h = cc
starts_control-IsControlled (a ∷ s) h = controlled (ground (arith, h))

IsControlled-starts_control : {s : Bytes} → IsControlled s → starts_control s ≡ true
IsControlled-starts_control (controlled small) = ground (arith, small)

quoted_safe : (s : Bytes) → ¬ IsHazard (39 ∷ s)
unfolding lstrip is_space
quoted_safe s (inl h) = let no = IsControlled-starts_control h in cc
quoted_safe s (inr h) = let no = IsFormula-starts_formula h in cc

pub calm_safe :
    (s : Bytes) → starts_control s ≡ false → starts_formula (lstrip s) ≡ false → ¬ IsHazard s
calm_safe s calm plain (inl h) = let no = IsControlled-starts_control h in cc
calm_safe s calm plain (inr h) = let no = IsFormula-starts_formula h in cc

pub spreadsheet_text-IsCellOf : (s : Bytes) → IsCellOf s (spreadsheet_text s)
unfolding spreadsheet_text
spreadsheet_text-IsCellOf s = elim (Bool-cases (starts_control s)) [
  | inl t ↦
      rw t (record {
        safe = quoted_safe s;
        content = inr (inl (starts_control-IsControlled s t), refl);
      })
  | inr calm ↦ elim (Bool-cases (starts_formula (lstrip s))) [
    | inl t ↦
        rw (calm, t)
          (record {
            safe = quoted_safe s;
            content = inr (inr (starts_formula-IsFormula s t), refl);
          })
    | inr plain ↦ rw (calm, plain) (record { safe = calm_safe s calm plain; content = inl refl })
  ]
]
