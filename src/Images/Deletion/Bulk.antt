-- ===== src/Images/Deletion/Bulk.antt =====
-- What deletions of images leave.
use picture_stage.Base.{
  ℕ, ◌≡◌, refl, inl, inr, Bool, true, false, not, List, [], ◌∷◌, map, filter, any, arith, contains,
  find_where, any-filter_keys, find_where-any, is_empty, Bool-cases, Option-cases, ◌==◌, ◌≢◌,
  sorted_set, find_where-none,
}
use mathlib.Core.Path.{subst, sym, ap, ◌∙◌}
use picture_stage.Base.Results.{Result, ok, err, ok_inj, Result-cases}
use picture_stage.Models.{Image, Database}
use picture_stage.Storage.Quota.{Tables}
use picture_stage.Storage.Quota.Balance.{IsBalanced}
use picture_stage.Gallery.Share.{is_owned}
use picture_stage.Gallery.Removal
use picture_stage.Gallery.Removal.{delete_storage_keys, cleanup_incomplete, accounting}
use picture_stage.Gallery.Removal.Purge.{delete_storage_keys-Deletion}
use picture_stage.Images.Deletion.{
  PreviewKey, Error, tracked_image_storage_keys, delete_row, delete_images, is_listed,
  bulk_delete_images,
}

abbrev image_id : Image → ℕ
image_id i = i.id

-- Deleting rows one by one is one filter by their ids.
filter_ids :
    (id : ℕ) (ids : List ℕ) (images : List Image)
    → filter (λ x. not (contains x.id ids)) (filter (λ x. not (x.id == id)) images)
      ≡ filter (λ x. not (contains x.id (id ∷ ids))) images
filter_ids id ids [] = refl
filter_ids id ids (x ∷ images) = elim (Bool-cases (x.id == id)) [
  | inl t ↦
      let same : x.id ≡ id = ground (arith, t) in
      let there : (id == x.id) ≡ true = ground (arith, t) in
      rw (t, there) (filter_ids id ids images)
  | inr n ↦
      let other : (id == x.id) ≡ false = ground (arith, n) in
      elim (Bool-cases (contains x.id ids)) [
        | inl c ↦ rw (n, other, c) (filter_ids id ids images)
        | inr c ↦ rw (n, other, c) (ap (λ (rows : List Image). x ∷ rows) (filter_ids id ids images))
      ]
]

-- What a deletion of a list of images comes to: the totals stay exact, and if it succeeds exactly the
-- rows with their ids are gone; it succeeds if no object resists.
pub record IsDeleted (fails : ℕ → Bool) (images : List Image) (db : Database)
    (result : Result Error Database × Tables) : Type 0 where
  pub balanced : IsBalanced result.1
  pub rows_gone :
      (db' : Database)
      → result.0 ≡ ok db'
      → db'.images ≡ filter (λ x. not (contains x.id (map image_id images))) db.images
  pub completes : ((k : ℕ) → fails k ≡ false) → (x : Error) → result.0 ≢ err x

delete_storage_keys-IsBalanced :
    (fails : ℕ → Bool) (keys : List ℕ) (t : Tables) {t' : Tables}
    → IsBalanced t
    → delete_storage_keys fails keys t ≡ ok t'
    → IsBalanced t'
delete_storage_keys-IsBalanced fails keys t balanced e =
    let (_, _, after) = rw e at (delete_storage_keys-Deletion fails keys t balanced) in after

filter_nothing :
    (fails : ℕ → Bool) (keys : List ℕ) → ((k : ℕ) → fails k ≡ false) → filter fails keys ≡ []
filter_nothing fails [] none_fails = refl
filter_nothing fails (k ∷ keys) none_fails =
    rw (none_fails k) (filter_nothing fails keys none_fails)

deletion_completes :
    (fails : ℕ → Bool) (keys : List ℕ) (t : Tables) (x : Removal.Error)
    → IsBalanced t
    → ((k : ℕ) → fails k ≡ false)
    → delete_storage_keys fails keys t ≢ err x
deletion_completes fails keys t (cleanup_incomplete failed) balanced none_fails e =
    let (those, some_failed) = rw e at (delete_storage_keys-Deletion fails keys t balanced) in
    some_failed (those ∙ filter_nothing fails (sorted_set keys) none_fails)
deletion_completes fails keys t (accounting x) balanced none_fails e =
    rw e at (delete_storage_keys-Deletion fails keys t balanced)

filter_no_ids : (images : List Image) → filter (λ x. not (contains x.id [])) images ≡ images
filter_no_ids [] = refl
filter_no_ids (x ∷ images) = rw (filter_no_ids images) refl

delete_images-IsDeleted :
    (storage_key : PreviewKey) (fails : ℕ → Bool) (images : List Image) (db : Database) (t : Tables)
    → IsBalanced t
    → IsDeleted fails images db (delete_images storage_key fails images db t)
unfolding delete_images delete_row
delete_images-IsDeleted storage_key fails [] db t balanced = record {
  balanced = balanced;
  rows_gone =
      λ db' e. ap (λ (d : Database). d.images) (sym (ok_inj e)) ∙ sym (filter_no_ids db.images);
  completes = λ none_fails x e. cc;
}
delete_images-IsDeleted storage_key fails (i ∷ images) db t balanced =
    elim (Result-cases (delete_storage_keys fails (tracked_image_storage_keys storage_key i t) t)) [
      | inr (x, failed) ↦
          rw (failed, delete_images)
            (record {
              balanced = balanced;
              rows_gone = λ db' e. cc;
              completes = λ none_fails y e.
                  deletion_completes fails (tracked_image_storage_keys storage_key i t) t x balanced
                    none_fails failed;
            })
      | inl (t', removed) ↦
          let after =
            delete_storage_keys-IsBalanced fails (tracked_image_storage_keys storage_key i t) t
              balanced removed in
          let rest = delete_images-IsDeleted storage_key fails images (delete_row i db) t' after in
          rw (removed, delete_images)
            (record {
              balanced = rest.balanced;
              rows_gone =
                  λ db' e. rest.rows_gone db' e ∙ filter_ids i.id (map image_id images) db.images;
              completes = rest.completes;
            })
    ]

nothing_listed :
    (gallery : ℕ) (image_ids : List ℕ)
    → is_empty image_ids ≡ true
    → (images : List Image) → any (is_listed gallery image_ids) images ≡ false
nothing_listed gallery [] e [] = refl
nothing_listed gallery [] e (x ∷ images) = nothing_listed gallery [] e images
nothing_listed gallery (id ∷ image_ids) e images = cc

-- A bulk deletion, whether or not it succeeds, leaves the totals of the storage exact; if it
-- succeeds, the gallery is the user's and no image of the gallery that it lists is left; where the user owns it and no object resists
-- deletion, it succeeds.
pub bulk_delete_images-Outcome :
    (storage_key : PreviewKey) (fails : ℕ → Bool) (gallery : ℕ) (image_ids : List ℕ) (user : ℕ)
    (db : Database) (t : Tables)
    → IsBalanced t
    → IsBalanced (bulk_delete_images storage_key fails gallery image_ids user db t).1
      × ((db' : Database)
          → (bulk_delete_images storage_key fails gallery image_ids user db t).0 ≡ ok db'
          → (any (is_owned gallery user) db.galleries ≡ true)
            × (any (is_listed gallery image_ids) db'.images ≡ false))
      × (any (is_owned gallery user) db.galleries ≡ true
          → ((k : ℕ) → fails k ≡ false)
          → (x : Error)
          → (bulk_delete_images storage_key fails gallery image_ids user db t).0 ≢ err x)
unfolding bulk_delete_images
bulk_delete_images-Outcome storage_key fails gallery image_ids user db t balanced =
    elim (Option-cases (find_where (is_owned gallery user) db.galleries)) [
      | inl stranger ↦ rw stranger (
        balanced,
        λ db' e. cc,
        λ mine none_fails x e.
            let gone = find_where-none (is_owned gallery user) db.galleries stranger in cc,
      )
      | inr (g, owned) ↦
          let mine = find_where-any (is_owned gallery user) db.galleries owned in
          elim (Bool-cases (is_empty image_ids)) [
            | inl nothing ↦
                rw (owned, nothing)
                  (
                    balanced,
                    λ db' e. (mine, nothing_listed gallery image_ids nothing db'.images),
                    λ _ none_fails x e. cc,
                  )
            | inr some_ids ↦
                let images = filter (is_listed gallery image_ids) db.images in
                let done = delete_images-IsDeleted storage_key fails images db t balanced in
                rw (owned, some_ids)
                  (
                    done.balanced,
                    λ db' e. (
                      mine,
                      subst (λ (rows : List Image). any (is_listed gallery image_ids) rows ≡ false)
                          (sym (done.rows_gone db' e))
                          (any-filter_keys (is_listed gallery image_ids) image_id
                            (map image_id images) db.images (λ k c. c)),
                    ),
                    λ _ none_fails. done.completes none_fails,
                  )
          ]
    ]
