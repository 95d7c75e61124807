-- ===== src/Selections/Latest.antt =====
-- The projection of app/db/models.py against the newest statement about an image, by creation time
-- and then by id.
use picture_stage.Base.{
  ℕ, ◌≡◌, refl, ◌⊎◌, inl, inr, Bool, true, false, Option, none, some, List, [], ◌∷◌, Bytes, arith,
  Bool-cases, ◌==◌, if◌then◌else◌,
}
use picture_stage.Models.{
  SelectionAction, select, deselect, favorite, unfavorite, comment, SelectionEvent, Versioned,
}
use picture_stage.Selections.{
  Selections, upsert, project, replay, version_of, is_newer, row_or_default,
}

-- What an event says about whether its image is selected.
abbrev pub selection_said : SelectionAction → Option Bool
selection_said select = some true
selection_said deselect = some false
selection_said _ = none

-- What an event says about one image.
abbrev pub said_of : ℕ → SelectionEvent → Option Bool
said_of image e = if image == e.image_id then selection_said e.action else none

abbrev selected_of : ℕ → Selections → Versioned Bool
selected_of image t = (row_or_default (t image)).selected

-- Among the events that `S` admits, a dimension holds the newest statement about an image: none
-- that says something is newer than the stored version, and the stored value was said by one of
-- them at the stored version, unless none has spoken and the default still stands.
pub record IsNewest (image : ℕ) (S : SelectionEvent → Type 0) (d : Versioned Bool) : Type 0 where
  pub covers :
      (e : SelectionEvent)
      → S e
      → (said_of image e ≡ none) ⊎ (is_newer (version_of e) d.version ≡ false)
  pub witnessed :
      ((e : SelectionEvent) × S e
        × (said_of image e ≡ some d.value)
        × (d.version ≡ some (version_of e)))
      ⊎ ((d.value ≡ false) × (d.version ≡ none))

upsert_cases :
    (v : Bool) (n : ℕ × ℕ) (d : Versioned Bool)
    → (upsert v n d ≡ record { value = v; version = some n }) ⊎ (upsert v n d ≡ d)
unfolding upsert
upsert_cases v n d = elim (Bool-cases (is_newer n d.version)) [
  | inl t ↦ inl (rw t)
  | inr f ↦ inr (rw f)
]

upsert_covers :
    (v : Bool) (n : ℕ × ℕ) (d : Versioned Bool) → is_newer n (upsert v n d).version ≡ false
unfolding upsert
upsert_covers v n d = ground arith

upsert_keeps :
    (v : Bool) (m n : ℕ × ℕ) (d : Versioned Bool)
    → is_newer m d.version ≡ false
    → is_newer m (upsert v n d).version ≡ false
unfolding upsert
upsert_keeps v m n d h = ground arith

-- What an event does to the selected dimension: nothing, or an upsert of what it says.
abbrev Stepped : ℕ → SelectionEvent → Selections → Type 0
Stepped image e t =
    ((said_of image e ≡ none) × (selected_of image (project e t) ≡ selected_of image t))
    ⊎ ((v : Bool) × (said_of image e ≡ some v)
        × (selected_of image (project e t) ≡ upsert v (version_of e) (selected_of image t)))

selected_step_as :
    (image : ℕ) (a : SelectionAction) (c : Option Bytes) (e : SelectionEvent) (t : Selections)
    → (image == e.image_id) ≡ true
    → Stepped image (record e { action = a; comment = c }) t
unfolding project
selected_step_as image select c e t q = inr (true, ground arith, ground arith)
selected_step_as image deselect c e t q = inr (false, ground arith, ground arith)
selected_step_as image favorite c e t q = inl (ground arith, ground arith)
selected_step_as image unfavorite c e t q = inl (ground arith, ground arith)
selected_step_as image comment none e t q = inl (ground arith, ground arith)
selected_step_as image comment (some _) e t q = inl (ground arith, ground arith)

selected_step : (image : ℕ) (e : SelectionEvent) (t : Selections) → Stepped image e t
unfolding project
selected_step image e t = elim (Bool-cases (image == e.image_id)) [
  | inl same ↦ selected_step_as image e.action e.comment e t same
  | inr other ↦ inl (ground arith, ground arith)
]

module _ (image : ℕ) (S : SelectionEvent → Type 0) (e : SelectionEvent) where
  abbrev SOrEvent : SelectionEvent → Type 0
  SOrEvent x = S x ⊎ (x ≡ e)

  IsNewest-silent :
      (d : Versioned Bool) → said_of image e ≡ none → IsNewest image S d → IsNewest image SOrEvent d
  IsNewest-silent d quiet h = record {
    covers = λ x s. elim s [ inl old ↦ h.covers x old | inr q ↦ inl (rw q quiet) ];
    witnessed = elim h.witnessed [ inl (x, s, a, b) ↦ inl (x, inl s, a, b) | inr w ↦ inr w ];
  }

  IsNewest-upsert :
      (v : Bool) (d : Versioned Bool)
      → said_of image e ≡ some v
      → IsNewest image S d
      → IsNewest image SOrEvent (upsert v (version_of e) d)
  IsNewest-upsert v d says h = record {
    covers = λ x s. elim s [
      | inl old ↦ elim (h.covers x old) [
        | inl quiet ↦ inl quiet
        | inr older ↦ inr (upsert_keeps v (version_of x) (version_of e) d older)
      ]
      | inr q ↦ inr (rw q (upsert_covers v (version_of e) d))
    ];
    witnessed = elim (upsert_cases v (version_of e) d) [
      | inl new ↦ rw new (inl (e, inr refl, says, refl))
      | inr same ↦
          rw same (elim h.witnessed [ inl (x, s, a, b) ↦ inl (x, inl s, a, b) | inr w ↦ inr w ])
    ];
  }

IsNewest-project :
    (image : ℕ) (S : SelectionEvent → Type 0) (e : SelectionEvent) (t : Selections)
    → IsNewest image S (selected_of image t)
    → IsNewest image (SOrEvent image S e) (selected_of image (project e t))
IsNewest-project image S e t h = elim (selected_step image e t) [
  | inl (quiet, same) ↦ rw same (IsNewest-silent image S e (selected_of image t) quiet h)
  | inr (v, says, new) ↦ rw new (IsNewest-upsert image S e v (selected_of image t) says h)
]

abbrev pub IsIn : SelectionEvent → List SelectionEvent → Type 0
IsIn x [] = ⊥
IsIn x (e ∷ log) = (x ≡ e) ⊎ IsIn x log

IsNewest-iff :
    (image : ℕ) (S T : SelectionEvent → Type 0) (d : Versioned Bool)
    → ((x : SelectionEvent) → S x → T x)
    → ((x : SelectionEvent) → T x → S x)
    → IsNewest image S d
    → IsNewest image T d
IsNewest-iff image S T d to from h = record {
  covers = λ x s. h.covers x (from x s);
  witnessed = elim h.witnessed [ inl (x, s, a, b) ↦ inl (x, to x s, a, b) | inr w ↦ inr w ];
}

IsNewest-replay :
    (image : ℕ) (S : SelectionEvent → Type 0) (log : List SelectionEvent) (t : Selections)
    → IsNewest image S (selected_of image t)
    → IsNewest image (λ x. S x ⊎ IsIn x log) (selected_of image (replay log t))
unfolding replay
IsNewest-replay image S [] t h =
    IsNewest-iff image S (λ x. S x ⊎ ⊥) (selected_of image t) (λ x s. inl s)
      (λ x s. elim s [ inl a ↦ a | inr b ↦ absurd b ]) h
IsNewest-replay image S (e ∷ log) t h =
    IsNewest-iff image (λ x. (S x ⊎ (x ≡ e)) ⊎ IsIn x log) (λ x. S x ⊎ ((x ≡ e) ⊎ IsIn x log))
      (selected_of image (replay log (project e t)))
      (λ x s. elim s [ inl (inl a) ↦ inl a | inl (inr q) ↦ inr (inl q) | inr m ↦ inr (inr m) ])
      (λ x s. elim s [ inl a ↦ inl (inl a) | inr (inl q) ↦ inl (inr q) | inr (inr m) ↦ inr m ])
      (IsNewest-replay image (SOrEvent image S e) log (project e t)
        (IsNewest-project image S e t h))

-- After any log of events on an empty table, the selected dimension of every image is the newest
-- statement of the log about that image.
pub replay-IsNewest :
    (image : ℕ) (log : List SelectionEvent)
    → IsNewest image (λ x. IsIn x log) (row_or_default (replay log (λ _. none) image)).selected
replay-IsNewest image log =
    IsNewest-iff image (λ x. ⊥ ⊎ IsIn x log) (λ x. IsIn x log)
      (selected_of image (replay log (λ _. none))) (λ x s. elim s [ inl b ↦ absurd b | inr m ↦ m ])
      (λ x m. inr m)
      (IsNewest-replay image (λ _. ⊥) log (λ _. none)
        (record { covers = λ x b. absurd b; witnessed = inr (refl, refl) }))
