-- ===== src/Lookup/Found.antt =====
-- What repeated requests for a guest's link come to.
use picture_stage.Base.{
  ℕ, zero, suc, ◌+◌, ◌*◌, ◌≤◌, ◌≡◌, refl, Bool, true, false, ◌||◌, Option, none, some, List, Bytes,
  arith, length, keys_after, length-keys_after, length-drop, inl, inr, Option-cases, find_where,
  find_where-test,
}
use mathlib.Core.Path.{sym, subst}
use picture_stage.Models.{Gallery, Database, Crypto, is_reachable}
use picture_stage.Guest.Access.{accepts_token, has_allowed_owner}
use picture_stage.Lookup.Scan.{
  Cursor, hint, legacy, indexed, Answer, found, Write, follow, scan, settle,
}
use picture_stage.Lookup.Complete.{
  any_accepted, any_accepted-keys_after, scanned_hit, scanned_more, scanned_over, scan-Scanned,
}
use picture_stage.Lookup.Follow.{
  Settles, keys_after-drop, continue, continue-Settles, found-Settles,
}
use picture_stage.Lookup.GalleryToken.{
  accepts_candidate, indexed_ids, legacy_ids, gallery_id, save_hint, legacy_phase, indexed_phase,
  resolve_gallery_by_token, is_hinted,
}

settle_found :
    {A : Type 0} (key : A → ℕ) (accepted : A → Bool) (rows : List A) (on_hit : A → Write) (v : ℕ)
    (left : List ℕ) {a : A} {w : Write}
    → settle on_hit (scan key accepted rows (suc v) left) ≡ (found a, w)
    → accepted a ≡ true
settle_found {A = A} key accepted rows on_hit v left {a = a} e =
    elim (scan-Scanned key accepted rows v left) [
      | scanned_hit b passes there eq ↦
          let same = rw eq at e in
          let row : b ≡ a = cc in subst (λ (x : A). accepted x ≡ true) row passes
      | scanned_over gone eq ↦ let other = rw eq at e in cc
      | scanned_more k long read further eq ↦ let other = rw eq at e in cc
    ]

module _ (c : Crypto) (token : Bytes) (db : Database) where
  abbrev accepts : Gallery → Bool
  accepts = accepts_candidate c token db

  abbrev is_among : List ℕ → Bool
  is_among ids = any_accepted (gallery_id c token db) accepts db.galleries ids

  abbrev resolve : Option Cursor → Answer Gallery × Write
  resolve = resolve_gallery_by_token c token db true

  abbrev followed : ℕ → Option Cursor → Answer Gallery × Write → Answer Gallery
  followed = continue (gallery_id c token db) accepts db.galleries resolve (save_hint c token db)

  legacy_phase-Settles :
      (n : ℕ) (old : Option Cursor) (cursor : Option ℕ)
      → length (keys_after cursor (legacy_ids c token db)) ≤ 64 + 64 * n
      → Settles accepts
          (followed n old (legacy_phase c token db true cursor))
          (is_among (keys_after cursor (legacy_ids c token db)))
  unfolding legacy_phase resolve_gallery_by_token
  legacy_phase-Settles n old cursor enough =
      continue-Settles (gallery_id c token db) accepts db.galleries resolve (save_hint c token db)
        (legacy_ids c token db) (λ k _. refl) n 63 old cursor (omega arith) enough

  -- The indexed windows, from any of them on, and the legacy windows after them.
  indexed_phase-Settles :
      (n : ℕ) (old : Option Cursor) (cursor : Option ℕ)
      → length (keys_after cursor (indexed_ids c token db))
          + length (keys_after none (legacy_ids c token db))
        ≤ 64 + 64 * n
      → Settles accepts (followed n old (indexed_phase c token db true cursor)) (
          is_among (keys_after cursor (indexed_ids c token db))
          || is_among (keys_after none (legacy_ids c token db)))
  unfolding indexed_phase follow resolve_gallery_by_token
  indexed_phase-Settles zero old cursor enough =
      elim (scan-Scanned (gallery_id c token db) accepts db.galleries 63
        (keys_after cursor (indexed_ids c token db))) [
          | scanned_hit a accepted there eq ↦ rw (eq, there) (found-Settles accepts a accepted)
          | scanned_over gone eq ↦
              rw (eq, gone) (legacy_phase-Settles zero old none (omega (arith, enough)))
          | scanned_more k long read same eq ↦ ground (arith, long, enough)
        ]
  indexed_phase-Settles (suc m) old cursor enough =
      elim (scan-Scanned (gallery_id c token db) accepts db.galleries 63
        (keys_after cursor (indexed_ids c token db))) [
          | scanned_hit a accepted there eq ↦ rw (eq, there) (found-Settles accepts a accepted)
          | scanned_over gone eq ↦
              rw (eq, gone) (legacy_phase-Settles (suc m) old none (omega (arith, enough)))
          | scanned_more k long read same eq ↦
              let moved = keys_after-drop cursor (indexed_ids c token db) 63 k read in
              rw (eq, same, sym moved)
                (indexed_phase-Settles m (some (indexed k)) (some k) (
                  rw moved (
                    omega (
                      arith,
                      enough,
                      long,
                      length-drop 64 (keys_after cursor (indexed_ids c token db)),
                    ))))
        ]

  -- In one database, where every request is admitted to the legacy scan: a guest whose browser
  -- repeats the request with the progress it was given is answered, with
  -- one request for each 64 candidates and one more: with a gallery that accepts the token if any
  -- gallery with the token's locator or without a locator does, and else that there is none.
  pub follow_gallery-Settles :
      (n : ℕ)
      → length (indexed_ids c token db) + length (legacy_ids c token db) ≤ 64 + 64 * n
      → Settles
          (accepts_candidate c token db)
          (follow (resolve_gallery_by_token c token db true) (suc n) none)
          (any_accepted
              (gallery_id c token db)
              (accepts_candidate c token db)
              db.galleries
              (indexed_ids c token db)
            || any_accepted
                (gallery_id c token db)
                (accepts_candidate c token db)
                db.galleries
                (legacy_ids c token db))
  unfolding follow resolve_gallery_by_token
  follow_gallery-Settles n enough =
      let first = length-keys_after none (indexed_ids c token db) in
      let second = length-keys_after none (legacy_ids c token db) in
      let all = any_accepted-keys_after (gallery_id c token db) accepts db.galleries in
      rw (sym (all (indexed_ids c token db)), sym (all (legacy_ids c token db)))
        (indexed_phase-Settles n none none (omega (arith, enough, first, second)))

  legacy_phase_found :
      (admitted : Bool) (cursor : Option ℕ) {g : Gallery} {w : Write}
      → legacy_phase c token db admitted cursor ≡ (found g, w)
      → accepts g ≡ true
  unfolding legacy_phase
  legacy_phase_found false cursor e = cc
  legacy_phase_found true cursor e =
      settle_found (gallery_id c token db) accepts db.galleries (save_hint c token db) 63
        (keys_after cursor (legacy_ids c token db)) e

  indexed_phase_found :
      (admitted : Bool) (cursor : Option ℕ) {g : Gallery} {w : Write}
      → indexed_phase c token db admitted cursor ≡ (found g, w)
      → accepts g ≡ true
  unfolding indexed_phase
  indexed_phase_found admitted cursor {g = g} e =
      elim (scan-Scanned (gallery_id c token db) accepts db.galleries 63
        (keys_after cursor (indexed_ids c token db))) [
          | scanned_hit b passes there eq ↦
              let same = rw eq at e in
              let row : b ≡ g = cc in subst (λ (x : Gallery). accepts x ≡ true) row passes
          | scanned_over gone eq ↦ legacy_phase_found admitted none (rw eq at e)
          | scanned_more k long read further eq ↦ let other = rw eq at e in cc
        ]

  resolve_found :
      (admitted : Bool) (cursor : Option Cursor) {g : Gallery} {w : Write}
      → resolve_gallery_by_token c token db admitted cursor ≡ (found g, w)
      → accepts g ≡ true
  unfolding resolve_gallery_by_token
  resolve_found admitted none e = indexed_phase_found admitted none e
  resolve_found admitted (some (indexed key)) e = indexed_phase_found admitted (some key) e
  resolve_found admitted (some (legacy key)) e = legacy_phase_found admitted (some key) e
  resolve_found admitted (some (hint key)) {g = g} e =
      elim (Option-cases (find_where (is_hinted c token db key) db.galleries)) [
        | inl gone ↦ indexed_phase_found admitted none (rw gone at e)
        | inr (b, hinted) ↦
            let same = rw hinted at e in
            let row : b ≡ g = cc in
            let passes = find_where-test (is_hinted c token db key) db.galleries hinted in
            subst (λ (x : Gallery). accepts x ≡ true) row (ground (arith, passes))
      ]

  -- Whatever progress a request carries, a gallery is found only if its link verifies the token,
  -- it is shared or completed, and its owner may log in.
  pub resolve_gallery_by_token-accepts :
      (admitted : Bool) (cursor : Option Cursor) {g : Gallery} {w : Write}
      → resolve_gallery_by_token c token db admitted cursor ≡ (found g, w)
      → (is_reachable g.status ≡ true)
        × (has_allowed_owner db g ≡ true)
        × (accepts_token c token g ≡ true)
  unfolding accepts_candidate
  resolve_gallery_by_token-accepts admitted cursor e =
      let passed = resolve_found admitted cursor e in
      (ground (arith, passed), ground (arith, passed), ground (arith, passed))
