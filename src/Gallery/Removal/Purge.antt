-- ===== src/Gallery/Removal/Purge.antt =====
-- What `purge_gallery` of app/galleries/deletion.py leaves, and when it refuses.
use picture_stage.Base.{
  ℕ, ◌≡◌, refl, ◌≢◌, inl, inr, Bool, true, false, not, ◌&&◌, none, some, List, [], ◌∷◌, ◌++◌, map,
  filter, any, arith, concat_map, is_empty, sorted_set, contains, ◌==◌, ==_refl, Bool-cases, ap,
  ◌∙◌, contains-sorted_set, contains-append, any-filter-not, any-filter_keys, find_where,
}
use picture_stage.Base.Results.{Result, ok, err, Result-cases}
use picture_stage.Models.{Gallery, AuditLog, Database, PreviewVariant, gallery_is}
use picture_stage.Storage.Quota.{Tables, Allocation, allocation_keys}
use picture_stage.Storage.Quota.Balance.{IsBalanced}
use picture_stage.Storage.Quota.Release.{release_total}
use picture_stage.Gallery.Removal.{
  Error, cleanup_incomplete, accounting, delete_storage_keys, gallery_keys, image_storage_keys,
  image_in, session_in, event_in, intent_in, audit_in, detach, purge_rows, purge_gallery,
}

is_empty_sound : {A : Type 0} (xs : List A) → is_empty xs ≡ true → xs ≡ []
is_empty_sound [] h = refl
is_empty_sound (x ∷ xs) h = cc

-- What the deletion of a list of keys may answer.
abbrev pub Deletion : (ℕ → Bool) → List ℕ → Tables → Result Error Tables → Type 0
Deletion fails keys t (ok t') =
    (filter fails (sorted_set keys) ≡ [])
    × (t'.allocations ≡ filter (λ a. not (contains a.key (sorted_set keys))) t.allocations)
    × IsBalanced t'
Deletion fails keys t (err (cleanup_incomplete failed)) =
    (failed ≡ filter fails (sorted_set keys)) × (failed ≢ [])
Deletion fails keys t (err (accounting _)) = ⊥

-- Where the totals are exact, deleting keys raises only for the keys whose deletion failed, which
-- it names, and then refunds nothing; otherwise exactly the charges of the keys are refunded.
pub delete_storage_keys-Deletion :
    (fails : ℕ → Bool) (keys : List ℕ) (t : Tables)
    → IsBalanced t
    → Deletion fails keys t (delete_storage_keys fails keys t)
unfolding delete_storage_keys
delete_storage_keys-Deletion fails keys t balanced =
    elim (Bool-cases (is_empty (filter fails (sorted_set keys)))) [
      | inl none_failed ↦
          let (t', released, rows, after) = release_total (sorted_set keys) t balanced in
          rw (none_failed, released)
            (is_empty_sound (filter fails (sorted_set keys)) none_failed, rows, after)
      | inr failed ↦ rw failed (refl, λ q. ground (arith, failed, ap is_empty q))
    ]

-- What a purge leaves of a gallery: no row that names it, no charge for it, and the charges exact.
pub record IsPurged (fails : ℕ → Bool) (keys : List ℕ) (gallery : ℕ) (db db' : Database)
    (t t' : Tables) : Type 0 where
  pub objects_deleted : filter fails (sorted_set keys) ≡ []
  pub no_gallery : any (gallery_is gallery) db'.galleries ≡ false
  pub no_image : any (image_in gallery) db'.images ≡ false
  pub no_session : any (session_in gallery) db'.share_sessions ≡ false
  pub no_intent : any (intent_in gallery) db'.upload_cleanup_intents ≡ false
  pub no_checkpoint : db'.checkpoints gallery ≡ none
  pub no_event : any (event_in gallery db) db'.selection_events ≡ false
  pub no_projection :
      (image : ℕ)
      → any (λ i. i.id == image && image_in gallery i) db.images ≡ true
      → db'.current_selections image ≡ none
  pub detached : any (audit_in gallery) db'.audit_log ≡ false
  pub no_charge : any (λ (a : Allocation). a.gallery_id == gallery) t'.allocations ≡ false
  pub refunded : t'.allocations ≡ filter (λ a. not (contains a.key (sorted_set keys))) t.allocations
  pub balanced : IsBalanced t'
  pub others_kept :
      (j : ℕ)
      → j ≢ gallery
      → find_where (gallery_is j) db'.galleries ≡ find_where (gallery_is j) db.galleries

abbrev pub Purge :
    (ℕ → Bool) → List ℕ → ℕ → Database → Tables → Result Error (Database × Tables) → Type 0
Purge fails keys gallery db t (ok (db', t')) = IsPurged fails keys gallery db db' t t'
Purge fails keys gallery db t (err (cleanup_incomplete failed)) =
    (failed ≡ filter fails (sorted_set keys)) × (failed ≢ [])
Purge fails keys gallery db t (err (accounting _)) = ⊥

any-detach :
    (gallery : ℕ) (rows : List AuditLog)
    → any (audit_in gallery) (map (detach gallery) rows) ≡ false
any-detach gallery [] = refl
any-detach gallery (a ∷ rows) = ground (arith, any-detach gallery rows)

find-others :
    (j gallery : ℕ) (rows : List Gallery)
    → j ≢ gallery
    → find_where (gallery_is j) (filter (λ g. not (gallery_is gallery g)) rows)
      ≡ find_where (gallery_is j) rows
find-others j gallery [] ne = refl
find-others j gallery (g ∷ rows) ne = ground (arith, find-others j gallery rows ne)

-- The filters on the image and the owner that `allocation_keys` is not given admit every row.
filter_by_gallery :
    (k gallery : ℕ) (rows : List Allocation)
    → contains k (map (λ a. a.key) (filter (λ a. a.gallery_id == gallery && true && true) rows))
      ≡ contains k (map (λ a. a.key) (filter (λ a. a.gallery_id == gallery) rows))
filter_by_gallery k gallery [] = refl
filter_by_gallery k gallery (a ∷ rows) = ground (arith, filter_by_gallery k gallery rows)

contains-last : (k : ℕ) (xs zs : List ℕ) → contains k zs ≡ true → contains k (xs ++ zs) ≡ true
contains-last k xs zs h = rw (contains-append k xs zs, h) (ground arith)

module _ (storage_key : ℕ → ℕ → PreviewVariant → ℕ) (fails : ℕ → Bool) (gallery : ℕ) where
  allocations-covered :
      (db : Database) (t : Tables) (k : ℕ)
      → contains k
          (map (λ a. a.key) (filter (λ (a : Allocation). a.gallery_id == gallery) t.allocations))
        ≡ true
      → contains k (sorted_set (gallery_keys storage_key gallery db t)) ≡ true
  unfolding gallery_keys allocation_keys
  allocations-covered db t k h =
      let charged = filter_by_gallery k gallery t.allocations ∙ h in
      rw (contains-sorted_set k (gallery_keys storage_key gallery db t), gallery_keys)
        (contains-last k
          (concat_map (image_storage_keys storage_key) (filter (image_in gallery) db.images)
            ++ concat_map (λ i. concat_map (λ keys. keys) i.image_keys)
                (filter (intent_in gallery) db.upload_cleanup_intents))
          (allocation_keys (some gallery) none none t)
          (contains-sorted_set k (
              map (λ a. a.key)
                (filter (λ (a : Allocation). a.gallery_id == gallery && true && true)
                  t.allocations))
            ∙ charged))

  purged :
      (db : Database) (t t' : Tables)
      → Deletion fails (gallery_keys storage_key gallery db t) t (ok t')
      → IsPurged fails
          (gallery_keys storage_key gallery db t)
          gallery
          db
          (purge_rows gallery db)
          t
          t'
  unfolding purge_rows
  purged db t t' (deleted, rows, after) = record {
    objects_deleted = deleted;
    no_gallery = any-filter-not (gallery_is gallery) db.galleries;
    no_image = any-filter-not (image_in gallery) db.images;
    no_session = any-filter-not (session_in gallery) db.share_sessions;
    no_intent = any-filter-not (intent_in gallery) db.upload_cleanup_intents;
    no_checkpoint = rw (==_refl gallery) refl;
    no_event = any-filter-not (event_in gallery db) db.selection_events;
    no_projection = λ image t. rw t refl;
    detached = any-detach gallery db.audit_log;
    no_charge = rw rows (
        any-filter_keys (λ a. a.gallery_id == gallery) (λ a. a.key)
          (sorted_set (gallery_keys storage_key gallery db t)) t.allocations
          (allocations-covered db t));
    refunded = rows;
    balanced = after;
    others_kept = λ j ne. find-others j gallery db.galleries ne;
  }

  -- Where the totals are exact, purging a gallery removes every row that names it and every charge
  -- for it, keeps the other galleries and leaves exact totals; it is refused only when a stored
  -- object could not be deleted, and names those.
  pub purge_gallery-Purge :
      (db : Database) (t : Tables)
      → IsBalanced t
      → Purge fails
          (gallery_keys storage_key gallery db t)
          gallery
          db
          t
          (purge_gallery storage_key fails gallery (db, t))
  unfolding purge_gallery
  purge_gallery-Purge db t balanced =
      let keys = gallery_keys storage_key gallery db t in
      let answer = delete_storage_keys-Deletion fails keys t balanced in
      elim (Result-cases (delete_storage_keys fails keys t)) [
        | inl (t', deleted) ↦ rw deleted (purged db t t' (rw deleted at answer))
        | inr (cleanup_incomplete failed, refused) ↦ rw refused (rw refused at answer)
        | inr (accounting x, refused) ↦ rw refused (rw refused at answer)
      ]
