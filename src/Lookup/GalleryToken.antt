-- ===== src/Lookup/GalleryToken.antt =====
-- `resolve_gallery_by_token` of app/guest/service.py: a guest's link is looked up by a hint of an
-- earlier answer, then among the galleries with the locator of the token, then among those whose
-- locator is unknown. Each request verifies at most `lookup_window` of them.
use picture_stage.Base.{
  ℕ, Bool, false, ◌&&◌, Option, none, some, List, map, Bytes, bytes_eq, filter, find_where,
  keys_after, is_none, is_some, is_filled,
}
use picture_stage.Models.{Gallery, Database, Crypto, is_reachable, gallery_is}
use picture_stage.Guest.Access.{accepts_token, has_allowed_owner}
use picture_stage.Gallery.Share.{token_locator}
use picture_stage.Lookup.Scan.{
  Cursor, hint, indexed, legacy, Answer, found, in_progress, Write, unchanged, saved, Scan, hit,
  more, over, scan, settle, admit,
}

abbrev pub lookup_window : ℕ
lookup_window = 64

abbrev pub has_locator : Bytes → Gallery → Bool
has_locator locator g = elim g.share_token_lookup [ none ↦ false | some l ↦ bytes_eq l locator ]

-- `share_token_lookup IS NULL AND share_token_hash IS NOT NULL`
abbrev pub is_legacy : Gallery → Bool
is_legacy g = is_none g.share_token_lookup && is_some g.share_token_hash

module _ (c : Crypto) (token : Bytes) (db : Database) where
  -- The filters of the query and the verification of a candidate.
  unfoldable pub accepts_candidate : Gallery → Bool
  accepts_candidate g =
      is_some g.share_token_hash
      && is_reachable g.status
      && has_allowed_owner db g
      && is_filled g.share_token_hash
      && is_filled g.share_token_salt
      && accepts_token c token g

  unfoldable pub indexed_ids : List ℕ
  unfolding token_locator
  indexed_ids = map (λ g. g.id) (filter (has_locator (token_locator c token)) db.galleries)

  unfoldable pub legacy_ids : List ℕ
  legacy_ids = map (λ g. g.id) (filter is_legacy db.galleries)

  abbrev pub gallery_id : Gallery → ℕ
  gallery_id g = g.id

  -- `progress.save("h", gallery.id.hex)`
  abbrev pub save_hint : Gallery → Write
  save_hint g = saved (hint g.id)

  abbrev pub window_after : Option ℕ → List ℕ → Scan Gallery
  window_after cursor ids =
      scan gallery_id accepts_candidate db.galleries lookup_window (keys_after cursor ids)

  unfoldable pub legacy_phase : Bool → Option ℕ → Answer Gallery × Write
  legacy_phase admitted cursor = admit admitted (settle save_hint (window_after cursor legacy_ids))

  abbrev pub after_indexed : Answer Gallery × Write → Scan Gallery → Answer Gallery × Write
  after_indexed rest (hit g) = (found g, save_hint g)
  after_indexed rest (more key) = (in_progress, saved (indexed key))
  after_indexed rest over = rest

  unfoldable pub indexed_phase : Bool → Option ℕ → Answer Gallery × Write
  unfolding legacy_phase
  indexed_phase admitted cursor =
      after_indexed (legacy_phase admitted none) (window_after cursor indexed_ids)

  abbrev pub is_hinted : ℕ → Gallery → Bool
  is_hinted i g = gallery_is i g && accepts_candidate g

  abbrev pub after_hint : Answer Gallery × Write → Option Gallery → Answer Gallery × Write
  after_hint rest none = rest
  after_hint rest (some g) = (found g, unchanged)

  unfoldable pub resolve_gallery_by_token : Bool → Option Cursor → Answer Gallery × Write
  unfolding indexed_phase
  resolve_gallery_by_token admitted none = indexed_phase admitted none
  resolve_gallery_by_token admitted (some (indexed key)) = indexed_phase admitted (some key)
  resolve_gallery_by_token admitted (some (legacy key)) = legacy_phase admitted (some key)
  resolve_gallery_by_token admitted (some (hint key)) =
      after_hint (indexed_phase admitted none) (find_where (is_hinted key) db.galleries)
