-- ===== src/Accounts/Removal/Charges.antt =====
-- The purges of an account's galleries in `delete_user` of app/admin/service.py, and the charges
-- that they leave.
use mathlib.Core.Path.{subst}
use picture_stage.Base.{
  ℕ, ◌≡◌, refl, inl, inr, Bool, true, false, not, List, [], ◌∷◌, ◌++◌, map, filter, any, arith,
  sorted_set, contains, Bool-cases, ap, sym, ◌∙◌, All, All-filter, contains-sorted_set,
  contains-append, any-filter_keys,
}
use picture_stage.Base.Results.{ok, Result-cases, ok_inj}
use picture_stage.Models.{Gallery, Database, PreviewVariant, gallery_is}
use picture_stage.Storage.Quota.{Tables, Allocation}
use picture_stage.Storage.Quota.Balance.{IsBalanced}
use picture_stage.Gallery.Removal.{delete_storage_keys, purge_gallery, purge_rows, gallery_keys}
use picture_stage.Gallery.Removal.Purge.{Deletion, delete_storage_keys-Deletion}
use picture_stage.Accounts.Removal.{owned, charged_to, is_remaining, purge_all}

-- Every charge of the account names one of the galleries.
abbrev pub Covers : ℕ → List ℕ → List Allocation → Type 0
Covers target ids = All (λ a. charged_to target a ≡ true → contains a.gallery_id ids ≡ true)

-- What purging a list of galleries leaves.
pub record ArePurged (ids : List ℕ) (db db' : Database) (t' : Tables) (target : ℕ) (locked : List ℕ)
    : Type 0 where
  pub galleries_left : db'.galleries ≡ filter (λ g. not (contains g.id ids)) db.galleries
  pub users_kept : db'.users ≡ db.users
  pub balanced : IsBalanced t'
  pub covers : Covers target locked t'.allocations

filter-filter_ids :
    (i : ℕ) (ids : List ℕ) (rows : List Gallery)
    → filter (λ g. not (contains g.id ids)) (filter (λ g. not (gallery_is i g)) rows)
      ≡ filter (λ g. not (contains g.id (i ∷ ids))) rows
filter-filter_ids i ids [] = refl
filter-filter_ids i ids (g ∷ rows) = ground (arith, filter-filter_ids i ids rows)

filter-none : (rows : List Gallery) → filter (λ g. not (contains g.id [])) rows ≡ rows
filter-none [] = refl
filter-none (g ∷ rows) = ap (λ r. g ∷ r) (filter-none rows)

module _ (storage_key : ℕ → ℕ → PreviewVariant → ℕ) (fails : ℕ → Bool) (target : ℕ)
    (locked : List ℕ) where
  pub purge_all-ArePurged :
      (ids : List ℕ) (db : Database) (t : Tables) {db' : Database}
      → IsBalanced t
      → Covers target locked t.allocations
      → (purge_all storage_key fails ids db t).0 ≡ ok db'
      → ArePurged ids db db' (purge_all storage_key fails ids db t).1 target locked
  unfolding purge_all purge_gallery purge_rows
  purge_all-ArePurged [] db t balanced covers e =
      subst (λ (d : Database). ArePurged [] db d t target locked) (ok_inj e)
        (record {
          galleries_left = sym (filter-none db.galleries);
          users_kept = refl;
          balanced = balanced;
          covers = covers;
        })
  purge_all-ArePurged (i ∷ ids) db t balanced covers e =
      elim (Result-cases (delete_storage_keys fails (gallery_keys storage_key i db t) t)) [
        | inr (x, refused) ↦ let no = rw (purge_all, purge_gallery, refused) at e in cc
        | inl (t', deleted) ↦
            let answer =
              delete_storage_keys-Deletion fails (gallery_keys storage_key i db t) t balanced in
            let (_, rows, after) : Deletion fails (gallery_keys storage_key i db t) t (ok t') =
              rw deleted at answer in
            let rest =
              purge_all-ArePurged ids (purge_rows i db) t' after
                (rw rows (All-filter _ _ t.allocations covers))
                (rw (purge_all, purge_gallery, deleted) at e) in
            rw (purge_all, purge_gallery, deleted)
              (record {
                galleries_left = rest.galleries_left ∙ filter-filter_ids i ids db.galleries;
                users_kept = rest.users_kept;
                balanced = rest.balanced;
                covers = rest.covers;
              })
      ]

  -- Also where a purge raises, the totals are exact.
  pub purge_all-IsBalanced :
      (ids : List ℕ) (db : Database) (t : Tables)
      → IsBalanced t
      → IsBalanced (purge_all storage_key fails ids db t).1
  unfolding purge_all purge_gallery purge_rows
  purge_all-IsBalanced [] db t balanced = balanced
  purge_all-IsBalanced (i ∷ ids) db t balanced =
      let keys = gallery_keys storage_key i db t in
      elim (Result-cases (delete_storage_keys fails keys t)) [
        | inr (x, refused) ↦ rw (purge_all, purge_gallery, refused) balanced
        | inl (t', deleted) ↦
            let answer = delete_storage_keys-Deletion fails keys t balanced in
            let (_, _, after) : Deletion fails keys t (ok t') = rw deleted at answer in
            rw (purge_all, purge_gallery, deleted)
              (purge_all-IsBalanced ids (purge_rows i db) t' after)
      ]

-- The charges of the account name the galleries that are locked.
pub Covers-locked :
    (target : ℕ) (ids : List ℕ) (rows : List Allocation)
    → Covers target (map (λ a. a.gallery_id) (filter (charged_to target) rows) ++ ids) rows
Covers-locked target ids rows = go rows (λ k h.
    rw (contains-append k (map (λ a. a.gallery_id) (filter (charged_to target) rows)) ids, h) refl)
  where
    go :
        (xs : List Allocation)
        → ((k : ℕ)
            → contains k (map (λ a. a.gallery_id) (filter (charged_to target) xs)) ≡ true
            → contains k (map (λ a. a.gallery_id) (filter (charged_to target) rows) ++ ids) ≡ true)
        → Covers target (map (λ a. a.gallery_id) (filter (charged_to target) rows) ++ ids) xs
    go [] h = tt
    go (a ∷ xs) h = (
      λ q. h a.gallery_id (rw q (ground arith)),
      go xs (λ k c. h k (elim (Bool-cases (charged_to target a)) [
        | inl t ↦ rw t (ground (arith, c))
        | inr f ↦ rw f c
      ])),
    )

-- An owner's galleries are gone when all galleries with their ids are.
pub no_owned :
    (target : ℕ) (rows : List Gallery)
    → any (owned target) (
        filter
          (λ g. not (contains g.id (sorted_set (map (λ g. g.id) (filter (owned target) rows)))))
          rows)
      ≡ false
no_owned target rows =
    any-filter_keys (owned target) (λ g. g.id)
      (sorted_set (map (λ g. g.id) (filter (owned target) rows))) rows
      (λ k h. contains-sorted_set k (map (λ g. g.id) (filter (owned target) rows)) ∙ h)

pub no_charge :
    (target : ℕ) (ids : List ℕ) (rows : List Allocation)
    → Covers target ids rows
    → any (is_remaining target ids) rows ≡ false
    → any (charged_to target) rows ≡ false
no_charge target ids [] h n = refl
no_charge target ids (a ∷ rows) h n = ground (arith, h.0, no_charge target ids rows h.1)
