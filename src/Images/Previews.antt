-- ===== src/Images/Previews.antt =====
-- app/images/preview_worker.py for one image, as a step relation. A processing holds the image's lock,
-- so that it is one step; one that raises, or is cancelled, has released the lock before its
-- compensation `_mark_failed`, and others may run between. Pictures are rendered by a pool whose
-- answers, like those of the storage and the commit, are inputs of the step.
mod Making
pub mod Shown
mod Tests
use picture_stage.Base.{
  ℕ, ◌≡◌, Bool, true, false, not, ◌&&◌, Option, none, some, List, [], ◌∷◌, ◌++◌, contains, is_none,
  if◌then◌else◌,
}
use picture_stage.Models.{PreviewVariant, thumb_sm, thumb_md, preview}
use picture_stage.Images.Upload.{
  Write, refused, written, broken, store, Commit, acknowledged, lost, rolled_back,
}

pub data ImageProcessingStatus : Type 0 where
  pending ready failed : ImageProcessingStatus

pub record ImagePreview : Type 0 where
  pub variant : PreviewVariant
  pub storage_key : ℕ

pub record ProcessedImage : Type 0 where
  pub processing_status : ImageProcessingStatus
  pub previews : List ImagePreview

-- The image's row, the owner of its gallery, and which objects the storage holds.
pub record Store : Type 0 where
  pub image : Option ProcessedImage
  pub owner_id : Option ℕ
  pub stored : ℕ → Bool

pub record Attempt : Type 0 where
  pub attempted_keys : List ℕ
  pub added : List ImagePreview
  pub stored : ℕ → Bool

-- The order of `PREVIEW_SIZES`.
abbrev pub preview_sizes : List PreviewVariant
preview_sizes = thumb_sm ∷ thumb_md ∷ preview ∷ []

abbrev pub is_ready : ImageProcessingStatus → Bool
is_ready ready = true
is_ready _ = false

-- The upload of a rendered variant, and whether the loop goes on.
abbrev pub upload_preview : ℕ → PreviewVariant → Write → Attempt → Attempt × Bool
upload_preview key v refused a = (a, false)
upload_preview key v written a = (
  record a {
    stored = store key true a.stored;
    added = record { variant = v; storage_key = key } ∷ a.added;
  },
  true,
)
upload_preview key v (broken there) a = (record a { stored = store key there a.stored }, false)

-- A picture that is not rendered raises before its key is registered.
abbrev pub make_preview : ℕ → PreviewVariant → Option Write → Attempt → Attempt × Bool
make_preview key v none a = (a, false)
make_preview key v (some outcome) a =
    upload_preview key v outcome (record a { attempted_keys = key ∷ a.attempted_keys })

unfoldable pub generate :
    (PreviewVariant → ℕ)
    → (PreviewVariant → Option Write)
    → List PreviewVariant
    → Attempt
    → Attempt × Bool
generate key outcome [] a = (a, true)
generate key outcome (v ∷ variants) a =
    let made = make_preview (key v) v (outcome v) a in
    let rest = generate key outcome variants made.0 in if made.1 then rest else made

abbrev pub make_ready : Attempt → ProcessedImage → Store → Store
make_ready a i s = record s {
  image = some (record { processing_status = ready; previews = a.added ++ i.previews });
  stored = a.stored;
}

-- The end of a processing, and the keys to compensate if it raises.
abbrev pub finish : Commit → Attempt × Bool → ProcessedImage → Store → Store × Option (List ℕ)
finish outcome (a, false) i s = (record s { stored = a.stored }, some a.attempted_keys)
finish acknowledged (a, true) i s = (make_ready a i s, none)
finish lost (a, true) i s = (make_ready a i s, some a.attempted_keys)
finish rolled_back (a, true) i s = (record s { stored = a.stored }, some a.attempted_keys)

-- What a processing meets: whether the original can be read, how each variant ends, and the commit.
pub record Run : Type 0 where
  pub original : Bool
  pub outcome : PreviewVariant → Option Write
  pub commit_outcome : Commit

abbrev pub process_found :
    (PreviewVariant → ℕ) → Run → Option ProcessedImage → Store → Store × Option (List ℕ)
process_found key run none s = (s, none)
process_found key run (some i) s =
    let made =
      generate key run.outcome preview_sizes
        (record { attempted_keys = []; added = []; stored = s.stored }) in
    if is_ready i.processing_status
    then (s, none)
    else if is_none s.owner_id
    then (s, none)
    else if not run.original
    then (s, some [])
    else finish run.commit_outcome made i s

unfoldable pub process_image_previews : (PreviewVariant → ℕ) → Run → Store → Store × Option (List ℕ)
process_image_previews key run s = process_found key run s.image s

abbrev pub fail_image : Bool → ProcessedImage → ProcessedImage
fail_image committed i = if committed then record i { processing_status = failed } else i

-- `_mark_failed`, where the deletion of some keys may fail, and so may the commit.
abbrev pub mark_found : (ℕ → Bool) → Bool → List ℕ → Option ProcessedImage → Store → Store
mark_found fails committed keys none s = record s {
  stored = λ k. s.stored k && not (contains k keys && not (fails k));
}
mark_found fails committed keys (some i) s = if is_ready i.processing_status then s else record s {
  stored = λ k. s.stored k && not (contains k keys && not (fails k));
  image = some (fail_image committed i);
}

unfoldable pub mark_failed : (ℕ → Bool) → Bool → List ℕ → Store → Store
mark_failed fails committed keys s = mark_found fails committed keys s.image s

-- The store with the compensations that are due.
pub record Worker : Type 0 where
  pub state : Store
  pub due : List (List ℕ)

abbrev pub add_due : Store × Option (List ℕ) → List (List ℕ) → Worker
add_due (s, none) due = record { state = s; due = due }
add_due (s, some keys) due = record { state = s; due = keys ∷ due }

-- An image for which `upload_images` of app/frontend/galleries.py starts the worker: it is pending,
-- without preview rows.
abbrev pub uploaded : Option ℕ → (ℕ → Bool) → Worker
uploaded owner stored = record {
  state = record {
    image = some (record { processing_status = pending; previews = [] });
    owner_id = owner;
    stored = stored;
  };
  due = [];
}

-- A processing, one that is refused for want of a slot, and a compensation that runs or is lost with
-- its process.
pub data Step (key : PreviewVariant → ℕ) (w : Worker) : Worker → Type 0 where
  processes : (run : Run) → Step key w (add_due (process_image_previews key run w.state) w.due)
  busy : Step key w (record w { due = [] ∷ w.due })
  compensates :
      (fails : ℕ → Bool) (committed : Bool) (before : List (List ℕ)) (keys : List ℕ)
      (later : List (List ℕ))
      → w.due ≡ before ++ keys ∷ later
      → Step key w
          (record { state = mark_failed fails committed keys w.state; due = before ++ later })
  stops :
      (before : List (List ℕ)) (keys : List ℕ) (later : List (List ℕ))
      → w.due ≡ before ++ keys ∷ later
      → Step key w (record w { due = before ++ later })

pub data Reachable (key : PreviewVariant → ℕ) (start : Worker) : Worker → Type 0 where
  here : Reachable key start start
  after : {v w : Worker} → Reachable key start v → Step key v w → Reachable key start w
