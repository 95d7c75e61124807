-- ===== src/Restore/Archive/Extraction.antt =====
-- An archive that is extracted whole.
use picture_stage.Base.{
  ◌≡◌, refl, inl, inr, Bool, false, ◌||◌, List, [], ◌∷◌, Bytes, arith, length, any, contains, All,
  Bool-cases, Option-cases, ltb,
}
use mathlib.Core.Path.{subst, sym}
use picture_stage.Base.Results.{ok, ok_inj, Result-cases}
use picture_stage.Security.Csrf.{rstrip}
use picture_stage.Lookup.SignupToken.{split}
use picture_stage.Restore.Archive.{
  RestoreLimits, Parts, is_relative, is_supported_root, encoded_size, target, Member, is_dir,
  Objects, add_paths, Progress, check_member, check_target, made_at, extract_member,
  extract_archive,
}
use picture_stage.Restore.Archive.Placed.{
  IsInside, IsPlaced, IsExtended, IsPlaced-IsExtended, add_paths-IsPlaced,
}

target-IsInside :
    (limits : RestoreLimits) (name : Bytes) {parts : Parts}
    → target limits name ≡ ok parts
    → IsInside limits parts
unfolding target
target-IsInside limits name {parts = parts} e =
    let split_parts = split 47 (rstrip name) in
    elim (Option-cases (encoded_size name)) [
      | inl absent ↦ let refused = rw absent at e in cc
      | inr (size, sized) ↦
          elim (Bool-cases
            (ltb limits.path_bytes size || ltb limits.path_depth (length split_parts))) [
              | inl long ↦ let refused = rw (sized, long) at e in cc
              | inr short ↦
                  elim (Bool-cases
                    (any is_relative split_parts || contains 0 name || contains 92 name)) [
                      | inl bad ↦ let refused = rw (sized, short, bad) at e in cc
                      | inr good ↦ elim (Bool-cases (is_supported_root split_parts)) [
                        | inr other ↦ let refused = rw (sized, short, good, other) at e in cc
                        | inl rooted ↦
                            let given = rw (sized, short, good, rooted) at e in
                            let inside : IsInside limits split_parts = record {
                              is_relative_free = ground (arith, good);
                              has_root = rooted;
                              depth = ground (arith, short);
                            } in
                            subst (λ (x : Parts). IsInside limits x) (ok_inj given) inside
                      ]
                    ]
            ]
    ]

-- What one member adds.
pub record IsExtracted (limits : RestoreLimits) (m : Member) (p q : Progress) : Type 0 where
  pub parts : Parts
  pub is_made : q.made ≡ (parts, is_dir m.kind) ∷ p.made
  pub is_inside : IsInside limits parts
  pub is_extended : IsExtended p.objects q.objects
  pub is_placed : IsPlaced [] parts (is_dir m.kind) q.objects

extract_member-IsExtracted :
    (limits : RestoreLimits) (m : Member) (p : Progress) {q : Progress}
    → extract_member limits m p ≡ ok q
    → IsExtracted limits m p q
unfolding extract_member
extract_member-IsExtracted limits m p {q = q} e = elim (Result-cases (check_member limits m)) [
  | inr (x, refused) ↦ let never = rw refused at e in cc
  | inl (u, checked) ↦ elim (Result-cases (target limits m.name)) [
    | inr (x, refused) ↦ let never = rw (checked, refused) at e in cc
    | inl (parts, to) ↦ elim (Result-cases (check_target limits m parts p.seen)) [
      | inr (x, refused) ↦ let never = rw (checked, to, refused) at e in cc
      | inl (v, fits) ↦ elim (Result-cases (add_paths [] parts (is_dir m.kind) p.objects)) [
        | inr (x, refused) ↦ let never = rw (checked, to, fits, refused) at e in cc
        | inl (objects, added) ↦ elim (Bool-cases (ltb limits.objects (length objects))) [
          | inl full ↦ let never = rw (checked, to, fits, added, full) at e in cc
          | inr room ↦
              let given = rw (checked, to, fits, added, room) at e in
              let (extended, placed) =
                add_paths-IsPlaced [] parts (is_dir m.kind) p.objects added in
              let done : IsExtracted limits m p (made_at m parts objects p) = record {
                parts = parts;
                is_made = refl;
                is_inside = target-IsInside limits m.name to;
                is_extended = extended;
                is_placed = placed;
              } in
              subst (λ (x : Progress). IsExtracted limits m p x) (ok_inj given) done
        ]
      ]
    ]
  ]
]

-- A target that was made lies inside, and is recorded with the directories above it.
abbrev pub IsSafe : RestoreLimits → Objects → Parts × Bool → Type 0
IsSafe limits objects (parts, dir) = IsInside limits parts × IsPlaced [] parts dir objects

All-IsExtended :
    (limits : RestoreLimits) (old new : Objects) (made : List (Parts × Bool))
    → IsExtended old new
    → All (IsSafe limits old) made
    → All (IsSafe limits new) made
All-IsExtended limits old new [] ext h = tt
All-IsExtended limits old new ((parts, dir) ∷ made) ext (h, hs) = (
  (h.0, IsPlaced-IsExtended [] parts dir old new ext h.1),
  All-IsExtended limits old new made ext hs,
)

-- Every target that an extraction makes lies below the destination, under a supported root, without
-- empty, `.` or `..` parts and within the depth limit; and in one record of paths, it stands as the file or
-- the directory that it is and every path above it as a directory.
pub extract_archive-IsSafe :
    (limits : RestoreLimits) (members : List Member) (p : Progress) {q : Progress}
    → All (IsSafe limits p.objects) p.made
    → extract_archive limits members p ≡ ok q
    → All (IsSafe limits q.objects) q.made
unfolding extract_archive
extract_archive-IsSafe limits [] p h e =
    subst (λ (x : Progress). All (IsSafe limits x.objects) x.made) (ok_inj e) h
extract_archive-IsSafe limits (m ∷ members) p {q = q} h e =
    elim (Result-cases (extract_member limits m p)) [
      | inr (x, refused) ↦ let never = rw refused at e in cc
      | inl (middle, extracted) ↦
          let rest : extract_archive limits members middle ≡ ok q = rw extracted at e in
          let step = extract_member-IsExtracted limits m p extracted in
          let before = All-IsExtended limits p.objects middle.objects p.made step.is_extended h in
          extract_archive-IsSafe limits members middle
            (subst (λ (made : List (Parts × Bool)). All (IsSafe limits middle.objects) made)
              (sym step.is_made) ((step.is_inside, step.is_placed), before))
            rest
    ]

-- In one record of paths, no file stands above another target.
pub no_file_above :
    (limits : RestoreLimits) (objects : Objects) (before : Parts) (root : Bytes) (part : Bytes)
    (below : Parts) (dir : Bool)
    → IsPlaced before (root ∷ []) false objects
    → IsPlaced before (root ∷ part ∷ below) dir objects
    → ⊥
no_file_above limits objects before root part below dir file placed =
    let a = file.0 in let b = placed.0 in cc
