-- ===== src/Accounts/Removal/Finished.antt =====
-- What a successful deletion of an account leaves, from its guards and the end of its purges.
use picture_stage.Base.{
  ℕ, ◌≡◌, refl, ◌≢◌, inl, inr, ◌≤◌, Bool, false, not, none, some, List, [], ◌∷◌, map, filter, any,
  arith, sorted_set, ◌==◌, Bool-cases, Option-cases, ap, sym, ◌∙◌, All-filter, find_where, ==_refl,
  sum_where, contains-sorted_set, any-filter-not, any-filter_keys,
}
use picture_stage.Base.Results.{Result, ok, err}
use picture_stage.Models.{User, admin, Database, PreviewVariant, user_is}
use picture_stage.Storage.Quota.{Tables, Allocation, known_size, unknown_size}
use picture_stage.Storage.Quota.Balance.{IsBalanced}
use picture_stage.Gallery.Removal.{Error, delete_storage_keys}
use picture_stage.Gallery.Removal.Purge.{Deletion}
use picture_stage.Accounts.Removal.Charges.{ArePurged, no_owned, no_charge}
use picture_stage.Accounts.Admin.{get_target, count_admins}
use picture_stage.Accounts.Removal.{
  check_removal, owned, charged_to, gallery_ids, locked_ids, is_remaining, delete_account,
  delete_usage, remaining_keys, remove_rest,
}

-- What a successful deletion of an account leaves.
pub record IsRemoved (actor target : ℕ) (db db' : Database) (t' : Tables) : Type 0 where
  pub u : User
  pub found : find_where (user_is target) db.users ≡ some u
  pub not_self : u.id ≢ actor
  pub not_last : u.status ≡ admin → 2 ≤ count_admins db
  pub no_user : any (user_is target) db'.users ≡ false
  pub no_gallery : any (owned target) db'.galleries ≡ false
  pub no_allocation : any (charged_to target) t'.allocations ≡ false
  pub no_usage : t'.usage target ≡ none
  pub balanced : IsBalanced t'
  pub others_kept :
      (j : ℕ) → j ≢ target → find_where (user_is j) db'.users ≡ find_where (user_is j) db.users

find-others :
    (j target : ℕ) (rows : List User)
    → j ≢ target
    → find_where (user_is j) (filter (λ u. not (user_is target u)) rows)
      ≡ find_where (user_is j) rows
find-others j target [] ne = refl
find-others j target (u ∷ rows) ne = ground (arith, find-others j target rows ne)

sum-none :
    (target : ℕ) (f : Allocation → ℕ) (rows : List Allocation)
    → any (charged_to target) rows ≡ false
    → sum_where (charged_to target) f rows ≡ 0
sum-none target f [] h = refl
sum-none target f (a ∷ rows) h = ground (arith, sum-none target f rows)

delete_usage-IsBalanced :
    (target : ℕ) (t : Tables)
    → any (charged_to target) t.allocations ≡ false
    → IsBalanced t
    → IsBalanced (delete_usage target t)
delete_usage-IsBalanced target t none_left h o = elim (Bool-cases (o == target)) [
  | inl same ↦
      let q : o ≡ target = ground arith in
      rw q (record {
        bytes_sum = rw (==_refl target) (sym (sum-none target known_size t.allocations none_left));
        objects_sum = rw (==_refl target) (sym (sum-none target (λ _. 1) t.allocations none_left));
        unknown_sum =
            rw (==_refl target) (sym (sum-none target unknown_size t.allocations none_left));
      })
  | inr other ↦ record {
    bytes_sum = rw other (h o).bytes_sum;
    objects_sum = rw other (h o).objects_sum;
    unknown_sum = rw other (h o).unknown_sum;
  }
]

pub check_removal-passes :
    (actor target : ℕ) (db : Database) {u : User}
    → check_removal actor target db ≡ ok u
    → (find_where (user_is target) db.users ≡ some u)
      × (u.id ≢ actor)
      × (u.status ≡ admin → 2 ≤ count_admins db)
unfolding check_removal get_target
check_removal-passes actor target db {u} e =
    elim (Option-cases (find_where (user_is target) db.users)) [
      | inl absent ↦ ground (arith, absent)
      | inr (v, found) ↦
          (ground (arith, found), λ q. ground (arith, found, q), λ q. ground (arith, found, q))
    ]

-- The ends of what follows the purges.
module _ (fails : ℕ → Bool) (target : ℕ) (locked : List ℕ)
    (p : Result Error Database × Tables) where
  pub remove_rest_stopped :
      {x : Error} → p.0 ≡ err x → remove_rest fails target locked p ≡ (err x, p.1)
  unfolding remove_rest
  remove_rest_stopped purges = rw (remove_rest, purges) refl

  pub remove_rest_refused :
      {db : Database} {x : Error}
      → p.0 ≡ ok db
      → delete_storage_keys fails (remaining_keys target locked p.1) p.1 ≡ err x
      → remove_rest fails target locked p ≡ (err x, p.1)
  unfolding remove_rest
  remove_rest_refused purges refused = rw (remove_rest, purges, refused) refl

  pub remove_rest_done :
      {db : Database} {t : Tables}
      → p.0 ≡ ok db
      → delete_storage_keys fails (remaining_keys target locked p.1) p.1 ≡ ok t
      → remove_rest fails target locked p ≡ (ok (delete_account target db), delete_usage target t)
  unfolding remove_rest
  remove_rest_done purges deleted = rw (remove_rest, purges, deleted) refl

module _ (storage_key : ℕ → ℕ → PreviewVariant → ℕ) (fails : ℕ → Bool) (actor target : ℕ)
    (db : Database) (t : Tables) (balanced : IsBalanced t) where
  pub finished :
      {u : User} (db1 : Database) (t1 t' : Tables)
      → find_where (user_is target) db.users ≡ some u
      → u.id ≢ actor
      → (u.status ≡ admin → 2 ≤ count_admins db)
      → ArePurged (gallery_ids target db) db db1 t1 target (locked_ids target db t)
      → Deletion fails
          (map (λ a. a.key) (filter (is_remaining target (locked_ids target db t)) t1.allocations))
          t1
          (ok t')
      → IsRemoved actor target db (delete_account target db1) (delete_usage target t')
  finished {u} db1 t1 t' found not_self not_last done (_, rows, after) =
      let locked = locked_ids target db t in
      let keys = map (λ a. a.key) (filter (is_remaining target locked) t1.allocations) in
      let free : any (charged_to target) t'.allocations ≡ false =
        no_charge target locked t'.allocations (rw rows (All-filter _ _ t1.allocations done.covers))
          (rw rows (
            any-filter_keys (is_remaining target locked) (λ a. a.key) (sorted_set keys)
              t1.allocations (λ k h. contains-sorted_set k keys ∙ h))) in
      record {
        u = u;
        found = found;
        not_self = not_self;
        not_last = not_last;
        no_user = any-filter-not (user_is target) db1.users;
        no_gallery = rw done.galleries_left (no_owned target db.galleries);
        no_allocation = free;
        no_usage = rw (==_refl target) refl;
        balanced = delete_usage-IsBalanced target t' free after;
        others_kept =
            λ j ne. find-others j target db1.users ne ∙ ap (find_where (user_is j)) done.users_kept;
      }
