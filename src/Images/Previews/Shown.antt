-- ===== src/Images/Previews/Shown.antt =====
-- What a guest may see of an image while its previews are made.
use picture_stage.Base.{ℕ, ◌≡◌, Bool, true, Option, none, some, List, [], ◌∷◌}
use picture_stage.Models.{PreviewVariant, thumb_sm, thumb_md, preview}
use picture_stage.Images.Previews.{ImageProcessingStatus, ready, ImagePreview, ProcessedImage}
use picture_stage.Images.Previews.Making.{preview_of}

-- An image that is ready has its three previews, and the storage holds their objects; an image that
-- is not has no preview rows.
abbrev pub IsShownAs :
    (PreviewVariant → ℕ) → (ℕ → Bool) → ImageProcessingStatus → List ImagePreview → Type 0
IsShownAs key stored ready previews =
    (previews ≡ preview_of key preview ∷ preview_of key thumb_md ∷ preview_of key thumb_sm ∷ [])
    × (stored (key thumb_sm) ≡ true)
    × (stored (key thumb_md) ≡ true)
    × (stored (key preview) ≡ true)
IsShownAs key stored _ previews = previews ≡ []

abbrev pub IsShown : (PreviewVariant → ℕ) → (ℕ → Bool) → Option ProcessedImage → Type 0
IsShown key stored none = Unit {0}
IsShown key stored (some i) = IsShownAs key stored i.processing_status i.previews
