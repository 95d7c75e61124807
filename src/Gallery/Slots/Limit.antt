-- ===== src/Gallery/Slots/Limit.antt =====
-- The gallery limit of app/galleries/quota.py, against what `create_gallery` may answer.
use picture_stage.Base.{ℕ, ◌+◌, ◌≡◌, refl, ◌≢◌, ◌⊎◌, inl, inr, Option, arith, Bool-cases}
use picture_stage.Base.Int.{ℤ, pos, ◌≤ℤ◌, leb_ℤ}
use picture_stage.Base.Results.{Result, ok, err}
use picture_stage.Models.{Gallery, Database, DateTime}
use picture_stage.Gallery.Slots.{
  Error, quota_exceeded, create_gallery, get_gallery_limit, owned_galleries, override_of,
}

-- The limit of an owner in a database.
abbrev limit_of : ℤ → ℕ → Database → ℤ
limit_of setting owner db = get_gallery_limit setting (override_of owner db)

-- What a creation may answer.
abbrev pub Outcome : ℤ → ℕ → Database → Result Error (Gallery × Database) → Type 0
Outcome setting owner db (ok (g, db')) =
    ((limit_of setting owner db ≤ℤ pos 0)
      ⊎ (pos (owned_galleries owner db') ≤ℤ limit_of setting owner db))
    × (g.owner_id ≡ owner)
    × (owned_galleries owner db' ≡ owned_galleries owner db + 1)
    × ((other : ℕ) → other ≢ owner → owned_galleries other db' ≡ owned_galleries other db)
Outcome setting owner db (err (quota_exceeded limit)) =
    (limit ≡ limit_of setting owner db)
    × (pos 1 ≤ℤ limit)
    × (limit ≤ℤ pos (owned_galleries owner db))

-- Creating a gallery adds one gallery of the owner and none of anybody else, and the owner stays
-- within a limit above zero; it is refused only with the owner's own limit, above zero, that is
-- reached.
pub create_gallery-Outcome :
    (setting : ℤ) (id owner : ℕ) (expires_at : Option DateTime) (db : Database)
    → Outcome setting owner db (create_gallery setting id owner expires_at db)
unfolding create_gallery
create_gallery-Outcome setting id owner expires_at db =
    elim (Bool-cases (leb_ℤ (limit_of setting owner db) (pos 0))) [
      | inl unlimited ↦
          rw unlimited (inl (ground arith), refl, ground arith, λ other ne. ground arith)
      | inr limited ↦
          elim (Bool-cases (leb_ℤ (limit_of setting owner db) (pos (owned_galleries owner db)))) [
            | inl full ↦ rw (limited, full) (refl, ground arith, ground arith)
            | inr room ↦
                rw (limited, room)
                  (inr (ground arith), refl, ground arith, λ other ne. ground arith)
          ]
    ]
