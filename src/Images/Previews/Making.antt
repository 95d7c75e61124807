-- ===== src/Images/Previews/Making.antt =====
-- What the loop over the variants leaves: it removes no object, and where it ends well it adds each row.
use picture_stage.Base.{
  ℕ, ◌≡◌, refl, inl, inr, Bool, true, Option, none, some, List, [], ◌∷◌, all, arith, Bool-cases,
}
use mathlib.Core.Path.{subst, sym, ap, ◌∙◌}
use picture_stage.Models.{PreviewVariant}
use picture_stage.Images.Upload.{Write, refused, written, broken}
use picture_stage.Images.Previews.{ImagePreview, Attempt, make_preview, generate}

abbrev pub preview_of : (PreviewVariant → ℕ) → PreviewVariant → ImagePreview
preview_of key v = record { variant = v; storage_key = key v }

-- The rows of an attempt that ends well, newest first.
abbrev pub rows_after :
    (PreviewVariant → ℕ) → List PreviewVariant → List ImagePreview → List ImagePreview
rows_after key [] rows = rows
rows_after key (v ∷ variants) rows = rows_after key variants (preview_of key v ∷ rows)

module _ (key : PreviewVariant → ℕ) where
  make-keeps :
      (v : PreviewVariant) (o : Option Write) (a : Attempt) (k : ℕ)
      → a.stored k ≡ true
      → (make_preview (key v) v o a).0.stored k ≡ true
  make-keeps v none a k h = h
  make-keeps v (some refused) a k h = h
  make-keeps v (some written) a k h = ground (arith, h)
  make-keeps v (some (broken there)) a k h = ground (arith, h)

  generate-keeps :
      (outcome : PreviewVariant → Option Write) (variants : List PreviewVariant) (a : Attempt)
      (k : ℕ)
      → a.stored k ≡ true
      → (generate key outcome variants a).0.stored k ≡ true
  unfolding generate
  generate-keeps outcome [] a k h = h
  generate-keeps outcome (v ∷ variants) a k h =
      let made = make-keeps v (outcome v) a k h in
      elim (Bool-cases (make_preview (key v) v (outcome v) a).1) [
        | inl t ↦
            rw t (generate-keeps outcome variants (make_preview (key v) v (outcome v) a).0 k made)
        | inr f ↦ rw f made
      ]

  make-added :
      (v : PreviewVariant) (o : Option Write) (a : Attempt)
      → (make_preview (key v) v o a).1 ≡ true
      → ((make_preview (key v) v o a).0.added ≡ preview_of key v ∷ a.added)
        × ((make_preview (key v) v o a).0.stored (key v) ≡ true)
  make-added v none a e = cc
  make-added v (some refused) a e = cc
  make-added v (some written) a e = (refl, ground arith)
  make-added v (some (broken there)) a e = cc

  pub generate-added :
      (outcome : PreviewVariant → Option Write) (variants : List PreviewVariant) (a : Attempt)
      → (generate key outcome variants a).1 ≡ true
      → ((generate key outcome variants a).0.added ≡ rows_after key variants a.added)
        × (all (λ v. (generate key outcome variants a).0.stored (key v)) variants ≡ true)
  unfolding generate
  generate-added outcome [] a e = (refl, refl)
  generate-added outcome (v ∷ variants) a e =
      elim (Bool-cases (make_preview (key v) v (outcome v) a).1) [
        | inr f ↦ let stopped = rw f at e in cc
        | inl t ↦
            let a1 = (make_preview (key v) v (outcome v) a).0 in
            let (rows, objects) = generate-added outcome variants a1 (rw t at e) in
            let (row, object) = make-added v (outcome v) a t in
            let kept = generate-keeps outcome variants a1 (key v) object in
            let next : generate key outcome (v ∷ variants) a ≡ generate key outcome variants a1 =
              rw t refl in
            subst
              (λ (r : Attempt × Bool).
                (r.0.added ≡ rows_after key (v ∷ variants) a.added)
                × (all (λ w. r.0.stored (key w)) (v ∷ variants) ≡ true))
              (sym next) (rows ∙ ap (rows_after key variants) row, rw (kept, objects) refl)
      ]
