-- ===== src/Lookup/SignupToken.antt =====
-- `resolve_pending_signup` of app/auth/token_lookup.py and `verification_lookup_id` of
-- app/auth/tokens.py. The id of a signup is a 32-bit integer; it is numbered from the least one,
-- which is how the cursor writes it (`id + 2**31`).
use picture_stage.Base.{
  ℕ, ◌-◌, ◌^◌, Bool, false, not, ◌&&◌, ◌||◌, Option, none, some, List, [], ◌∷◌, map, Bytes,
  bytes_eq, length, filter, find_where, keys_after, is_none, is_empty, leb, ◌==◌, if◌then◌else◌,
}
use picture_stage.Models.{PendingSignup, Database, Crypto}
use picture_stage.Gallery.Share.{verify_token}
use picture_stage.Lookup.Scan.{Cursor, legacy, Answer, found, Write, cleared, scan, settle, admit}
use picture_stage.Lookup.GalleryToken.{lookup_window}

-- What the code takes from uuid: reading 32 hexadecimal digits, and writing them.
pub record Uuids : Type 0 where
  pub parse : Bytes → Option ℕ
  pub hex : ℕ → Bytes

abbrev pub push : ℕ → List Bytes → List Bytes
push a [] = (a ∷ []) ∷ []
push a (part ∷ parts) = (a ∷ part) ∷ parts

-- `split`
unfoldable pub split : ℕ → Bytes → List Bytes
split separator [] = [] ∷ []
split separator (a ∷ s) =
    let rest = split separator s in if a == separator then [] ∷ rest else push a rest

-- The bytes of `v1`.
abbrev pub version_tag : Bytes
version_tag = 118 ∷ 49 ∷ []

unfoldable pub check_canonical : Uuids → Bytes → Option ℕ → Option ℕ
check_canonical u digits none = none
check_canonical u digits (some locator) =
    if bytes_eq (u.hex locator) digits then some locator else none

unfoldable pub locator_of_parts : Uuids → List Bytes → Option ℕ
unfolding check_canonical
locator_of_parts u (version ∷ digits ∷ secret ∷ []) =
    let canonical = check_canonical u digits (u.parse digits) in
    if not (bytes_eq version version_tag) || not (length digits == 32) || is_empty secret
    then none
    else canonical
locator_of_parts u _ = none

unfoldable pub verification_lookup_id : Uuids → Bytes → Option ℕ
unfolding split locator_of_parts
verification_lookup_id u token = locator_of_parts u (split 46 token)

-- The cursor, where it is one of this resolver and within the range of the ids.
abbrev pub signup_cursor : Option Cursor → Option ℕ
signup_cursor (some (legacy key)) = if leb key (2 ^ 32 - 1) then some key else none
signup_cursor _ = none

module _ (c : Crypto) (u : Uuids) (token : Bytes) (db : Database) where
  abbrev pub has_verification : PendingSignup → Bool
  has_verification s =
      not (is_empty s.verification_token_hash) && not (is_empty s.verification_token_salt)

  unfoldable pub accepts_signup : PendingSignup → Bool
  accepts_signup s =
      has_verification s && verify_token c token s.verification_token_hash s.verification_token_salt

  unfoldable pub unindexed_ids : List ℕ
  unindexed_ids =
      map (λ s. s.id) (filter (λ s. is_none s.verification_lookup_id) db.pending_signups)

  abbrev pub signup_id : PendingSignup → ℕ
  signup_id s = s.id

  abbrev pub clear_progress : PendingSignup → Write
  clear_progress _ = cleared

  unfoldable pub legacy_window : Bool → ℕ → Option ℕ → Answer PendingSignup × Write
  legacy_window admitted remaining cursor = admit admitted (
      settle clear_progress (
        scan signup_id accepts_signup db.pending_signups remaining
          (keys_after cursor unindexed_ids)))

  abbrev pub has_lookup_id : ℕ → PendingSignup → Bool
  has_lookup_id locator s = elim s.verification_lookup_id [ none ↦ false | some l ↦ l == locator ]

  abbrev pub candidate_of : Option ℕ → Option PendingSignup
  candidate_of none = none
  candidate_of (some locator) = find_where (has_lookup_id locator) db.pending_signups

  -- The indexed candidate, then the legacy window with what is left of the budget.
  unfoldable pub after_candidate : Bool → Option PendingSignup → Answer PendingSignup × Write
  unfolding legacy_window accepts_signup
  after_candidate admitted none = legacy_window admitted lookup_window none
  after_candidate admitted (some s) =
      let whole = legacy_window admitted lookup_window none in
      let reduced = legacy_window admitted (lookup_window - 1) none in
      if accepts_signup s then (found s, cleared) else if has_verification s then reduced else whole

  unfoldable pub resolve_pending_signup : Bool → Option Cursor → Answer PendingSignup × Write
  unfolding after_candidate verification_lookup_id
  resolve_pending_signup admitted cursor = elim (signup_cursor cursor) [
    | some key ↦ legacy_window admitted lookup_window (some key)
    | none ↦ after_candidate admitted (candidate_of (verification_lookup_id u token))
  ]
