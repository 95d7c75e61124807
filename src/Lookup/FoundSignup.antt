-- ===== src/Lookup/FoundSignup.antt =====
-- What repeated requests for a verification link come to.
use picture_stage.Base.{
  ℕ, suc, ◌+◌, ◌*◌, ◌^◌, ◌≤◌, ◌<◌, ◌≡◌, inl, inr, Bool, true, false, ◌||◌, Option, none, some, List,
  Bytes, arith, length, contains, keys_after, length-keys_after, Bool-cases,
}
use mathlib.Core.Path.{sym, ap}
use picture_stage.Models.{PendingSignup, Database, Crypto}
use picture_stage.Lookup.Scan.{Cursor, legacy, Answer, Write, follow, scan, settle}
use picture_stage.Lookup.Complete.{any_accepted, any_accepted-keys_after}
use picture_stage.Lookup.Follow.{Settles, continue, continue-Settles, found-Settles}
use picture_stage.Lookup.SignupToken.{
  Uuids, verification_lookup_id, signup_cursor, accepts_signup, unindexed_ids, signup_id,
  has_verification, clear_progress, legacy_window, candidate_of, after_candidate,
  resolve_pending_signup,
}

module _ (c : Crypto) (u : Uuids) (token : Bytes) (db : Database) where
  abbrev accepts : PendingSignup → Bool
  accepts = accepts_signup c u token db

  abbrev is_among : List ℕ → Bool
  is_among ids = any_accepted (signup_id c u token db) accepts db.pending_signups ids

  abbrev resolve : Option Cursor → Answer PendingSignup × Write
  resolve = resolve_pending_signup c u token db true

  abbrev followed : ℕ → Option Cursor → Answer PendingSignup × Write → Answer PendingSignup
  followed =
      continue (signup_id c u token db) accepts db.pending_signups resolve
        (clear_progress c u token db)

  -- Whether the signup that the token's locator names, if any, accepts the token.
  abbrev pub is_located : Option PendingSignup → Bool
  is_located none = false
  is_located (some s) = accepts_signup c u token db s

  -- Every id is one of 32 bits.
  abbrev pub AreInRange : Type 0
  AreInRange = (k : ℕ) → contains k (unindexed_ids c u token db) ≡ true → k < 2 ^ 32

  resumes :
      AreInRange
      → (k : ℕ) → contains k (unindexed_ids c u token db) ≡ true
      → resolve (some (legacy k))
        ≡ settle (clear_progress c u token db) (
            scan
              (signup_id c u token db)
              accepts
              db.pending_signups
              64
              (keys_after (some k) (unindexed_ids c u token db)))
  unfolding resolve_pending_signup legacy_window
  resumes range k there =
      let small : k < 2 ^ 32 = range k there in
      let read : signup_cursor (some (legacy k)) ≡ some k = ground (arith, small) in
      let go : Option ℕ → Answer PendingSignup × Write = λ cursor. elim cursor [
        | some key ↦ legacy_window c u token db true 64 (some key)
        | none ↦
            after_candidate c u token db true
              (candidate_of c u token db (verification_lookup_id u token))
      ] in
      ap go read

  legacy_window-Settles :
      AreInRange
      → (n v : ℕ) → v < 64
      → length (unindexed_ids c u token db) ≤ suc v + 64 * n
      → Settles accepts
          (followed n none (legacy_window c u token db true (suc v) none))
          (is_among (unindexed_ids c u token db))
  unfolding legacy_window
  legacy_window-Settles range n v small enough =
      rw
        (sym (
          any_accepted-keys_after (signup_id c u token db) accepts db.pending_signups
            (unindexed_ids c u token db)))
        (continue-Settles (signup_id c u token db) accepts db.pending_signups resolve
          (clear_progress c u token db) (unindexed_ids c u token db) (resumes range) n v none none
          small (omega (arith, enough, length-keys_after none (unindexed_ids c u token db))))

  after_candidate-Settles :
      AreInRange
      → (n : ℕ) (candidate : Option PendingSignup)
      → length (unindexed_ids c u token db) ≤ 63 + 64 * n
      → Settles accepts
          (followed n none (after_candidate c u token db true candidate))
          (is_located candidate || is_among (unindexed_ids c u token db))
  unfolding after_candidate follow
  after_candidate-Settles range n none enough =
      legacy_window-Settles range n 63 (omega arith) (omega (arith, enough))
  after_candidate-Settles range n (some s) enough = elim (Bool-cases (accepts s)) [
    | inl t ↦ rw t (found-Settles accepts s t)
    | inr f ↦ elim (Bool-cases (has_verification c u token db s)) [
      | inl whole ↦
          rw (f, whole) (legacy_window-Settles range n 62 (omega arith) (omega (arith, enough)))
      | inr spent ↦
          rw (f, spent) (legacy_window-Settles range n 63 (omega arith) (omega (arith, enough)))
    ]
  ]

  -- In one database, where every request is admitted to the legacy scan and
  -- ids have 32 bits, a browser that repeats the request of a verification link is answered,
  -- with one request for each 64 signups without a locator and one more: with a signup that accepts the token,
  -- if the one that the token's locator names or one without a locator does, and else that there is none.
  pub follow_signup-Settles :
      AreInRange
      → (n : ℕ) → length (unindexed_ids c u token db) ≤ 63 + 64 * n
      → Settles
          (accepts_signup c u token db)
          (follow (resolve_pending_signup c u token db true) (suc n) none)
          (is_located (candidate_of c u token db (verification_lookup_id u token))
            || any_accepted
                (signup_id c u token db)
                (accepts_signup c u token db)
                db.pending_signups
                (unindexed_ids c u token db))
  unfolding follow resolve_pending_signup
  follow_signup-Settles range n enough =
      after_candidate-Settles range n (candidate_of c u token db (verification_lookup_id u token))
        enough
