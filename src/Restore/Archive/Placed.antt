-- ===== src/Restore/Archive/Placed.antt =====
-- What an extraction makes stays inside its directory, and no file stands in another's way.
use picture_stage.Base.{
  ◌≤◌, ◌≡◌, refl, inl, inr, Bool, true, false, not, ◌||◌, none, some, [], ◌∷◌, ◌++◌, arith,
  bytes_eq_refl, eq_of_bytes_eq, length, any, is_empty, Bool-cases, Option-cases,
}
use mathlib.Core.Path.{subst, sym}
use picture_stage.Base.Results.{ok, ok_inj, Result-cases}
use picture_stage.Restore.Archive.{
  RestoreLimits, Parts, paths_eq, is_relative, is_supported_root, Objects, find_object, same_kind,
  add_object, add_paths,
}

paths_eq_refl : (p : Parts) → paths_eq p p ≡ true
paths_eq_refl [] = refl
paths_eq_refl (a ∷ p) = ground (arith, bytes_eq_refl a, paths_eq_refl p)

eq_of_paths_eq : (p q : Parts) → paths_eq p q ≡ true → p ≡ q
eq_of_paths_eq [] [] h = refl
eq_of_paths_eq [] (_ ∷ _) h = cc
eq_of_paths_eq (_ ∷ _) [] h = cc
eq_of_paths_eq (a ∷ p) (b ∷ q) h = ground (arith, eq_of_bytes_eq a b, eq_of_paths_eq p q)

-- A path below the destination, under one of the supported roots.
pub record IsInside (limits : RestoreLimits) (parts : Parts) : Type 0 where
  pub is_relative_free : any is_relative parts ≡ false
  pub has_root : is_supported_root parts ≡ true
  pub depth : length parts ≤ limits.path_depth

-- What is recorded of a path: its prefixes as directories, itself as what it is.
abbrev pub IsPlaced : Parts → Parts → Bool → Objects → Type 0
IsPlaced before [] dir objects = Unit
IsPlaced before (part ∷ parts) dir objects =
    (find_object (before ++ part ∷ []) objects ≡ some (not (is_empty parts) || dir))
    × IsPlaced (before ++ part ∷ []) parts dir objects

-- Paths that are recorded stay so, as what they are.
abbrev pub IsExtended : Objects → Objects → Type 0
IsExtended old new =
    (q : Parts) (d : Bool) → find_object q old ≡ some d → find_object q new ≡ some d

same_kind_sound : (a b : Bool) → same_kind a b ≡ true → a ≡ b
same_kind_sound true b h = sym h
same_kind_sound false false h = refl
same_kind_sound false true h = cc

add_object-IsExtended :
    (path : Parts) (dir : Bool) (objects : Objects) {new : Objects}
    → add_object path dir objects ≡ ok new
    → IsExtended objects new × (find_object path new ≡ some dir)
unfolding add_object
add_object-IsExtended path dir objects {new = new} e =
    elim (Option-cases (find_object path objects)) [
      | inl absent ↦
          let given = rw (absent, add_object) at e in
          let same = ok_inj given in
          subst (λ (n : Objects). IsExtended objects n × (find_object path n ≡ some dir)) same
            (
              (λ q d there. elim (Bool-cases (paths_eq path q)) [
                | inl t ↦
                    let here = eq_of_paths_eq path q t in
                    let gone : find_object q objects ≡ none =
                      subst (λ (x : Parts). find_object x objects ≡ none) here absent in
                    cc
                | inr n ↦ rw n there
              ]),
              rw (paths_eq_refl path) refl,
            )
      | inr (known, there) ↦ elim (Bool-cases (same_kind known dir)) [
        | inr n ↦ let refused = rw (there, n, add_object) at e in cc
        | inl t ↦
            let given = rw (there, t, add_object) at e in
            let same = ok_inj given in
            subst (λ (n : Objects). IsExtended objects n × (find_object path n ≡ some dir)) same
              (
                (λ q d h. h),
                subst (λ (x : Bool). find_object path objects ≡ some x)
                    (same_kind_sound known dir t) there,
              )
      ]
    ]

pub IsPlaced-IsExtended :
    (before parts : Parts) (dir : Bool) (old new : Objects)
    → IsExtended old new
    → IsPlaced before parts dir old
    → IsPlaced before parts dir new
IsPlaced-IsExtended before [] dir old new ext h = tt
IsPlaced-IsExtended before (part ∷ parts) dir old new ext h = (
  ext (before ++ part ∷ []) (not (is_empty parts) || dir) h.0,
  IsPlaced-IsExtended (before ++ part ∷ []) parts dir old new ext h.1,
)

pub add_paths-IsPlaced :
    (before parts : Parts) (dir : Bool) (objects : Objects) {new : Objects}
    → add_paths before parts dir objects ≡ ok new
    → IsExtended objects new × IsPlaced before parts dir new
unfolding add_paths
add_paths-IsPlaced before [] dir objects {new = new} e =
    let same = ok_inj e in (subst (λ (n : Objects). IsExtended objects n) same (λ q d h. h), tt)
add_paths-IsPlaced before (part ∷ parts) dir objects {new = new} e =
    elim (Result-cases (add_object (before ++ part ∷ []) (not (is_empty parts) || dir) objects)) [
      | inr (refusal, refused) ↦ let never = rw refused at e in cc
      | inl (middle, added) ↦
          let rest : add_paths (before ++ part ∷ []) parts dir middle ≡ ok new = rw added at e in
          let (kept, found) =
            add_object-IsExtended (before ++ part ∷ []) (not (is_empty parts) || dir) objects
              added in
          let (later, placed) = add_paths-IsPlaced (before ++ part ∷ []) parts dir middle rest in
          (
            (λ q d h. later q d (kept q d h)),
            (later (before ++ part ∷ []) (not (is_empty parts) || dir) found, placed),
          )
    ]
