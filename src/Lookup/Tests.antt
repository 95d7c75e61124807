-- ===== src/Lookup/Tests.antt =====
-- A guest's link, a verification link, and progress that is saved and read.
use picture_stage.Base.{ℕ, ◌≡◌, refl, arith, true, false, none, some, [], ◌∷◌}
use picture_stage.Models.{is_reachable}
use picture_stage.Guest.Access.{accepts_token, has_allowed_owner}
use picture_stage.Gallery.Share.{token_locator, verify_token}
use picture_stage.Examples.{plain, database, staffed, open_gallery}
use picture_stage.Lookup.Scan.{hint, legacy, found, in_progress, unchanged, saved, scan, settle}
use picture_stage.Lookup.GalleryToken.{
  indexed_ids, legacy_ids, resolve_gallery_by_token, accepts_candidate,
}
use picture_stage.Lookup.SignupToken.{
  Uuids, unindexed_ids, resolve_pending_signup, accepts_signup, verification_lookup_id,
}
use picture_stage.Lookup.Found.{resolve_gallery_by_token-accepts}
use picture_stage.Lookup.Admission.{follow_requests}
use picture_stage.Lookup.Answered.{resolve_gallery_by_token-Settles, resolve_pending_signup-Settles}
use picture_stage.Lookup.Follow.{Settles}
use picture_stage.Lookup.Progress.{Mac}

-- The locator names the gallery, so the first request finds it, although the scan is busy.
resolve_gallery_by_token-Settles_example :
    Settles
      (accepts_candidate plain (7 ∷ []) database)
      (follow_requests (resolve_gallery_by_token plain (7 ∷ []) database) (false ∷ true ∷ []) none)
      true
unfolding accepts_token verify_token token_locator indexed_ids legacy_ids accepts_candidate
resolve_gallery_by_token-Settles_example =
    resolve_gallery_by_token-Settles plain (7 ∷ []) database 0 (false ∷ true ∷ []) (omega arith)
      (omega arith)

link_is_found :
    resolve_gallery_by_token plain (7 ∷ []) database true none
    ≡ (found open_gallery, saved (hint 5))
unfolding resolve_gallery_by_token accepts_token verify_token accepts_candidate scan indexed_ids
    token_locator
link_is_found = refl

hint_is_followed :
    resolve_gallery_by_token plain (7 ∷ []) database true (some (hint 5))
    ≡ (found open_gallery, unchanged)
unfolding resolve_gallery_by_token accepts_token verify_token accepts_candidate
hint_is_followed = refl

resolve_gallery_by_token-accepts_example :
    (is_reachable open_gallery.status ≡ true)
    × (has_allowed_owner database open_gallery ≡ true)
    × (accepts_token plain (7 ∷ []) open_gallery ≡ true)
resolve_gallery_by_token-accepts_example =
    resolve_gallery_by_token-accepts plain (7 ∷ []) database true (some (hint 5)) hint_is_followed

-- Windows of one key: the first ends at the smaller key, the second at the row.
window_moves_on :
    settle (λ _. unchanged) (scan (λ (k : ℕ). k) (λ _. false) (4 ∷ 2 ∷ []) 1 (2 ∷ 4 ∷ []))
    ≡ (in_progress, saved (legacy 2))
unfolding scan
window_moves_on = refl

abbrev no_uuids : Uuids
no_uuids = record { parse = λ _. none; hex = λ _. [] }

-- The signup has no locator: the first request is refused, the second finds it.
resolve_pending_signup-Settles_example :
    Settles
      (accepts_signup plain no_uuids (7 ∷ []) staffed)
      (follow_requests
        (resolve_pending_signup plain no_uuids (7 ∷ []) staffed)
        (false ∷ true ∷ [])
        none)
      true
unfolding accepts_signup verify_token unindexed_ids verification_lookup_id
resolve_pending_signup-Settles_example =
    resolve_pending_signup-Settles plain no_uuids (7 ∷ []) staffed
      (λ k there. ground (arith, there)) 0 (false ∷ true ∷ []) (omega arith) (omega arith)

abbrev some_mac : Mac
some_mac _ digest _ expiry = expiry ∷ digest
