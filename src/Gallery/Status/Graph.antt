-- ===== src/Gallery/Status/Graph.antt =====
-- The statuses that a gallery can reach, as a relation, and `change_gallery_status` against it.
use picture_stage.Base.{◌≡◌, refl, ◌≢◌, Bool, true, false, Option, none, some, Bytes, is_some}
use picture_stage.Base.Results.{Result, ok, err}
use picture_stage.Models.{
  GalleryStatus, draft, shared, completed, archived, allowed_transition, Gallery,
}
use picture_stage.Gallery.Status.Defs.{Error, no_transition, no_share_link, change_gallery_status}

-- The edges of the documented life cycle.
infix 40 ◌⟶◌ ◌⟶*◌
pub data ◌⟶◌ : GalleryStatus → GalleryStatus → Type 0 where
  share : draft ⟶ shared
  complete : shared ⟶ completed
  archive : completed ⟶ archived
  reopen : completed ⟶ shared
  restore : archived ⟶ shared

pub data ◌⟶*◌ (s : GalleryStatus) : GalleryStatus → Type 0 where
  here : s ⟶* s
  step : {t u : GalleryStatus} → s ⟶* t → t ⟶ u → s ⟶* u

-- What a status change may answer, by cases.
abbrev pub Outcome : Gallery → GalleryStatus → Result Error (Gallery × Bool) → Type 0
Outcome g target (ok (g', true)) =
    (g.status ⟶ target)
    × (g' ≡ record g { status = target })
    × (target ≡ shared → is_some g.share_token_hash ≡ true)
Outcome g target (ok (g', false)) = (g.status ≡ target) × (g' ≡ g)
Outcome g target (err no_transition) = (g.status ≢ target) × ¬ (g.status ⟶ target)
Outcome g target (err no_share_link) =
    (g.status ⟶ target) × (target ≡ shared) × (g.share_token_hash ≡ none)
Outcome g target (err Error.not_found) = ⊥

⟶-allowed : {s t : GalleryStatus} → s ⟶ t → allowed_transition s t ≡ true
⟶-allowed share = refl
⟶-allowed complete = refl
⟶-allowed archive = refl
⟶-allowed reopen = refl
⟶-allowed restore = refl

abbrev with_link : Gallery → GalleryStatus → Option Bytes → Gallery
with_link g s h = record g { status = s; share_token_hash = h }

module _ (g : Gallery) where
  outcome :
      (s target : GalleryStatus) (h : Option Bytes)
      → Outcome (with_link g s h) target (change_gallery_status (with_link g s h) target)
  unfolding change_gallery_status
  outcome draft draft h = (refl, refl)
  outcome shared shared h = (refl, refl)
  outcome completed completed h = (refl, refl)
  outcome archived archived h = (refl, refl)
  outcome draft shared none = (share, refl, refl)
  outcome draft shared (some _) = (share, refl, λ _. refl)
  outcome shared completed h = (complete, refl, λ e. cc)
  outcome completed archived h = (archive, refl, λ e. cc)
  outcome completed shared none = (reopen, refl, refl)
  outcome completed shared (some _) = (reopen, refl, λ _. refl)
  outcome archived shared none = (restore, refl, refl)
  outcome archived shared (some _) = (restore, refl, λ _. refl)
  outcome s target h = (λ e. cc, λ x. cc (⟶-allowed x))

-- Changing the status follows exactly the edges of the life cycle: an allowed change sets the
-- status and nothing else, and needs a share link where the target is `shared`; the same status
-- again changes nothing; every other request is refused.
pub change_gallery_status-Outcome :
    (g : Gallery) (target : GalleryStatus) → Outcome g target (change_gallery_status g target)
change_gallery_status-Outcome g target = outcome g g.status target g.share_token_hash

⟶-ne-draft : {s t : GalleryStatus} → s ⟶ t → t ≢ draft
⟶-ne-draft share e = cc
⟶-ne-draft complete e = cc
⟶-ne-draft archive e = cc
⟶-ne-draft reopen e = cc
⟶-ne-draft restore e = cc

-- The edges of the life cycle lead back to `draft` from nowhere else.
pub ⟶*-draft : {s t : GalleryStatus} → s ⟶* t → t ≡ draft → s ≡ draft
⟶*-draft here e = e
⟶*-draft (step r x) e = absurd (⟶-ne-draft x e)

ruleset life_cycle = (here, step, share, complete, archive, reopen, restore)

-- From every status the life cycle has a way to every status but `draft`.
pub ⟶*-all : (s t : GalleryStatus) → t ≢ draft → s ⟶* t
⟶*-all s draft h = absurd (h refl)
⟶*-all draft shared h = search life_cycle
⟶*-all draft completed h = search life_cycle
⟶*-all draft archived h = search life_cycle
⟶*-all shared _ h = search life_cycle
⟶*-all completed _ h = search life_cycle
⟶*-all archived _ h = search life_cycle
