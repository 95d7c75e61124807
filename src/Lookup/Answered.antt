-- ===== src/Lookup/Answered.antt =====
-- A client that repeats its request is answered, also where some of its requests meet a scan that
-- another client holds.
use picture_stage.Base.{
  ℕ, suc, ◌+◌, ◌*◌, ◌≤◌, ◌≡◌, refl, ◌⊎◌, inl, inr, Bool, true, false, ◌||◌, Option, none, some,
  List, Bytes, length, find_where, Bool-cases, Option-cases,
}
use picture_stage.Models.{Gallery, PendingSignup, Database, Crypto}
use picture_stage.Lookup.Scan.{
  hint, indexed, legacy, Answer, busy, Write, unchanged, Scan, hit, more, over,
}
use picture_stage.Lookup.Complete.{any_accepted}
use picture_stage.Lookup.Follow.{Settles}
use picture_stage.Lookup.Admission.{follow_requests, admissions, Waits, follow_requests-Settles}
use picture_stage.Lookup.GalleryToken.{
  accepts_candidate, indexed_ids, legacy_ids, gallery_id, legacy_phase, indexed_phase,
  after_indexed, resolve_gallery_by_token, is_hinted,
}
use picture_stage.Lookup.SignupToken.{
  Uuids, verification_lookup_id, signup_cursor, accepts_signup, unindexed_ids, signup_id,
  has_verification, legacy_window, candidate_of, after_candidate, resolve_pending_signup,
}
use picture_stage.Lookup.Found.{follow_gallery-Settles}
use picture_stage.Lookup.FoundSignup.{AreInRange, is_located, follow_signup-Settles}

-- A request that is not admitted is answered like one that is, or is busy.
abbrev IsSameOrBusy : {A : Type 0} → Answer A × Write → Answer A × Write → Type 0
IsSameOrBusy refused admitted = (refused ≡ admitted) ⊎ (refused ≡ (busy, unchanged))

module _ (c : Crypto) (token : Bytes) (db : Database) where
  after_indexed_waits :
      (rest : Answer Gallery × Write) (x : Scan Gallery)
      → IsSameOrBusy
          (after_indexed c token db (busy, unchanged) x)
          (after_indexed c token db rest x)
  after_indexed_waits rest (hit g) = inl refl
  after_indexed_waits rest (more key) = inl refl
  after_indexed_waits rest over = inr refl

  indexed_phase_waits :
      (cursor : Option ℕ)
      → IsSameOrBusy (indexed_phase c token db false cursor) (indexed_phase c token db true cursor)
  unfolding indexed_phase legacy_phase
  indexed_phase_waits cursor = after_indexed_waits _ _

  resolve_gallery_by_token-Waits : Waits (resolve_gallery_by_token c token db)
  unfolding resolve_gallery_by_token legacy_phase
  resolve_gallery_by_token-Waits none = indexed_phase_waits none
  resolve_gallery_by_token-Waits (some (indexed key)) = indexed_phase_waits (some key)
  resolve_gallery_by_token-Waits (some (legacy key)) = inr refl
  resolve_gallery_by_token-Waits (some (hint key)) =
      elim (Option-cases (find_where (is_hinted c token db key) db.galleries)) [
        | inl gone ↦ rw gone (indexed_phase_waits none)
        | inr (g, hinted) ↦ rw hinted (inl refl)
      ]

  -- In a database that does not change meanwhile, and with progress that does not expire: a guest
  -- whose browser repeats the request with the progress it was given, of which one request for each 64
  -- candidates and one more are admitted to a legacy scan, is answered, however many others are refused
  -- as busy: with a gallery that accepts the token if any gallery with the token's locator or
  -- without a locator does, and else that there is none.
  pub resolve_gallery_by_token-Settles :
      (n : ℕ) (requests : List Bool)
      → length (indexed_ids c token db) + length (legacy_ids c token db) ≤ 64 + 64 * n
      → suc n ≤ admissions requests
      → Settles
          (accepts_candidate c token db)
          (follow_requests (resolve_gallery_by_token c token db) requests none)
          (any_accepted
              (gallery_id c token db)
              (accepts_candidate c token db)
              db.galleries
              (indexed_ids c token db)
            || any_accepted
                (gallery_id c token db)
                (accepts_candidate c token db)
                db.galleries
                (legacy_ids c token db))
  resolve_gallery_by_token-Settles n requests enough admitted =
      follow_requests-Settles (resolve_gallery_by_token c token db) resolve_gallery_by_token-Waits
        (accepts_candidate c token db) requests (suc n) admitted
        (follow_gallery-Settles c token db n enough)

module _ (c : Crypto) (u : Uuids) (token : Bytes) (db : Database) where
  after_candidate_waits :
      (candidate : Option PendingSignup)
      → IsSameOrBusy
          (after_candidate c u token db false candidate)
          (after_candidate c u token db true candidate)
  unfolding after_candidate legacy_window
  after_candidate_waits none = inr refl
  after_candidate_waits (some s) = elim (Bool-cases (accepts_signup c u token db s)) [
    | inl t ↦ rw t (inl refl)
    | inr f ↦ elim (Bool-cases (has_verification c u token db s)) [
      | inl whole ↦ rw (f, whole) (inr refl)
      | inr spent ↦ rw (f, spent) (inr refl)
    ]
  ]

  resolve_pending_signup-Waits : Waits (resolve_pending_signup c u token db)
  unfolding resolve_pending_signup legacy_window
  resolve_pending_signup-Waits cursor = elim (Option-cases (signup_cursor cursor)) [
    | inl start ↦
        rw (resolve_pending_signup, start)
          (after_candidate_waits (candidate_of c u token db (verification_lookup_id u token)))
    | inr (key, resumed) ↦ rw (resolve_pending_signup, resumed) (inr refl)
  ]

  -- In a database that does not change meanwhile, with progress that does not expire and ids of 32
  -- bits: a browser that repeats the request of a verification link, of which one request for each 64
  -- signups without a locator and one more are admitted to a legacy scan, is answered, however many
  -- others are refused as busy: with a signup that accepts the token, if the one that the token's
  -- locator names or one without a locator does, and else that there is none.
  pub resolve_pending_signup-Settles :
      AreInRange c u token db
      → (n : ℕ) (requests : List Bool) → length (unindexed_ids c u token db) ≤ 63 + 64 * n
      → suc n ≤ admissions requests
      → Settles
          (accepts_signup c u token db)
          (follow_requests (resolve_pending_signup c u token db) requests none)
          (is_located c u token db (candidate_of c u token db (verification_lookup_id u token))
            || any_accepted
                (signup_id c u token db)
                (accepts_signup c u token db)
                db.pending_signups
                (unindexed_ids c u token db))
  resolve_pending_signup-Settles range n requests enough admitted =
      follow_requests-Settles (resolve_pending_signup c u token db) resolve_pending_signup-Waits
        (accepts_signup c u token db) requests (suc n) admitted
        (follow_signup-Settles c u token db range n enough)
