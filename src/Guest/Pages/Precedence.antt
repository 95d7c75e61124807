-- ===== src/Guest/Pages/Precedence.antt =====
-- The orders of the image pages: strict, and total on images with distinct ids.
use picture_stage.Base.{
  ℕ, ◌≡◌, refl, true, false, ◌||◌, List, [], ◌∷◌, arith, All, AreComparable, ◌==◌,
}
use picture_stage.Models.{Image}
use picture_stage.Guest.PageOrder.{
  ImageSortBy, by_sort_order, by_filename, by_exif_date, SortDirection, asc, desc, Keys, keys_of,
  columns, tuple_lt, precedes,
}

tuple_lt_trans : (s t u : List ℕ) → tuple_lt s t ≡ true → tuple_lt t u ≡ true → tuple_lt s u ≡ true
unfolding tuple_lt
tuple_lt_trans [] t u h k = cc
tuple_lt_trans (a ∷ s) [] u h k = cc
tuple_lt_trans (a ∷ s) (b ∷ t) [] h k = cc
tuple_lt_trans (a ∷ s) (b ∷ t) (c ∷ u) h k = ground (arith, h, k, tuple_lt_trans s t u)

tuple_lt_irrefl : (s : List ℕ) → tuple_lt s s ≡ false
unfolding tuple_lt
tuple_lt_irrefl [] = refl
tuple_lt_irrefl (a ∷ s) = ground (arith, tuple_lt_irrefl s)

pub precedes_trans :
    (d : SortDirection) (a b c : Keys)
    → precedes d a b ≡ true
    → precedes d b c ≡ true
    → precedes d a c ≡ true
unfolding precedes
precedes_trans asc a b c h k = tuple_lt_trans (columns a) (columns b) (columns c) h k
precedes_trans desc a b c h k = tuple_lt_trans (columns c) (columns b) (columns a) k h

pub precedes_irrefl : (d : SortDirection) (a : Keys) → precedes d a a ≡ false
unfolding precedes
precedes_irrefl asc a = tuple_lt_irrefl (columns a)
precedes_irrefl desc a = tuple_lt_irrefl (columns a)

-- The id, which is the last column, decides between images that agree in the others.
precedes_total :
    (sort_by : ImageSortBy) (d : SortDirection) (i j : Image)
    → (i.id == j.id) ≡ false
    → (precedes d (keys_of sort_by i) (keys_of sort_by j)
        || precedes d (keys_of sort_by j) (keys_of sort_by i))
      ≡ true
unfolding precedes tuple_lt
precedes_total by_sort_order asc i j h = ground (arith, h)
precedes_total by_sort_order desc i j h = ground (arith, h)
precedes_total by_filename asc i j h = ground (arith, h)
precedes_total by_filename desc i j h = ground (arith, h)
precedes_total by_exif_date asc i j h = ground (arith, h)
precedes_total by_exif_date desc i j h = ground (arith, h)

-- No two images have the same id.
abbrev pub AreDistinct : List Image → Type 0
AreDistinct [] = Unit
AreDistinct (i ∷ images) = All (λ j. (i.id == j.id) ≡ false) images × AreDistinct images

module _ (sort_by : ImageSortBy) (d : SortDirection) where
  All-total :
      (i : Image) (images : List Image)
      → All (λ j. (i.id == j.id) ≡ false) images
      → All
          (λ j.
            (precedes d (keys_of sort_by i) (keys_of sort_by j)
              || precedes d (keys_of sort_by j) (keys_of sort_by i))
            ≡ true)
          images
  All-total i [] h = tt
  All-total i (j ∷ images) h = (precedes_total sort_by d i j h.0, All-total i images h.1)

  pub AreDistinct-AreComparable :
      (images : List Image)
      → AreDistinct images
      → AreComparable (keys_of sort_by) (precedes d) images
  AreDistinct-AreComparable [] h = tt
  AreDistinct-AreComparable (i ∷ images) h =
      (All-total i images h.0, AreDistinct-AreComparable images h.1)
