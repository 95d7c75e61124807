-- ===== src/Accounts/Removal.antt =====
-- `delete_user` of app/admin/service.py: an account with its galleries, its stored objects and its
-- charges. The galleries are locked and purged in the order of their ids.
pub mod Charges
pub mod Finished
pub mod Removed
mod Tests
use picture_stage.Base.{
  ℕ, Bool, true, false, not, ◌&&◌, Option, none, some, List, [], ◌∷◌, ◌++◌, map, filter, contains,
  sorted_set, leb, ◌==◌, if◌then◌else◌,
}
use picture_stage.Base.Results.{Result, ok, err, raise_if, map_error, ◌>>=◌, ◌>>◌}
use picture_stage.Models.{User, is_admin, Gallery, Database, PreviewVariant, user_is}
use picture_stage.Storage.Quota.{Tables, Allocation}
use picture_stage.Gallery.Removal
use picture_stage.Gallery.Removal.{purge_gallery, delete_storage_keys}
use picture_stage.Accounts.Admin
use picture_stage.Accounts.Admin.{get_target, self_delete, last_admin, count_admins, admin_audit}

pub data Error : Type 0 where
  rejected : Admin.Error → Error
  cleanup : Removal.Error → Error

-- The guards of `delete_user`.
unfoldable pub check_removal : ℕ → ℕ → Database → Result Admin.Error User
unfolding get_target
check_removal actor target db = do
  u ← get_target target db
  raise_if (u.id == actor) self_delete
  raise_if (is_admin u.status && leb (count_admins db) 1) last_admin
  ok u

abbrev pub owned : ℕ → Gallery → Bool
owned target g = g.owner_id == target

abbrev pub charged_to : ℕ → Allocation → Bool
charged_to target a = a.owner_id == target

-- The owner's galleries, in the order of their ids.
abbrev pub gallery_ids : ℕ → Database → List ℕ
gallery_ids target db = sorted_set (map (λ g. g.id) (filter (owned target) db.galleries))

-- `locked_gallery_ids`: with those that only a charge names.
abbrev pub locked_ids : ℕ → Database → Tables → List ℕ
locked_ids target db t =
    map (λ a. a.gallery_id) (filter (charged_to target) t.allocations) ++ gallery_ids target db

abbrev pub is_remaining : ℕ → List ℕ → Allocation → Bool
is_remaining target ids a = charged_to target a && contains a.gallery_id ids

-- The purges in turn. One that raises rolls the database back, but the refunds of the earlier ones
-- were committed in transactions of their own.
unfoldable pub purge_all :
    (ℕ → ℕ → PreviewVariant → ℕ)
    → (ℕ → Bool)
    → List ℕ
    → Database
    → Tables
    → Result Removal.Error Database × Tables
purge_all storage_key fails [] db t = (ok db, t)
purge_all storage_key fails (g ∷ gs) db t = elim (purge_gallery storage_key fails g (db, t)) [
  | err e ↦ (err e, t)
  | ok s ↦ purge_all storage_key fails gs s.0 s.1
]

-- The delete of the row, and of the row of totals that cascades with it.
abbrev pub delete_account : ℕ → Database → Database
delete_account target db = record db { users = filter (λ u. not (user_is target u)) db.users }

abbrev pub delete_usage : ℕ → Tables → Tables
delete_usage target t = record t { usage = λ o. if o == target then none else t.usage o }

-- The keys of the charges that the purges left.
abbrev pub remaining_keys : ℕ → List ℕ → Tables → List ℕ
remaining_keys target locked t =
    map (λ a. a.key) (filter (is_remaining target locked) t.allocations)

-- What follows the purges.
unfoldable pub remove_rest :
    (ℕ → Bool)
    → ℕ
    → List ℕ
    → Result Removal.Error Database × Tables
    → Result Removal.Error Database × Tables
remove_rest fails target locked purged = elim purged.0 [
  | err e ↦ (err e, purged.1)
  | ok db ↦ elim (delete_storage_keys fails (remaining_keys target locked purged.1) purged.1) [
    | err e ↦ (err e, purged.1)
    | ok t ↦ (ok (delete_account target db), delete_usage target t)
  ]
]

-- The deletions of `delete_user`, from the audit entry to the commit.
unfoldable pub remove_account :
    (ℕ → ℕ → PreviewVariant → ℕ)
    → (ℕ → Bool)
    → ℕ
    → ℕ
    → Database
    → Tables
    → Result Removal.Error Database × Tables
unfolding purge_all remove_rest
remove_account storage_key fails actor target db t =
    remove_rest fails target (locked_ids target db t) (
      purge_all storage_key fails (gallery_ids target db)
        (record db { audit_log = admin_audit actor ∷ db.audit_log }) t)

-- The tables that are left are stated of every end, the database of a success.
unfoldable pub delete_user :
    (ℕ → ℕ → PreviewVariant → ℕ)
    → (ℕ → Bool)
    → ℕ
    → ℕ
    → Database
    → Tables
    → Result Error Database × Tables
unfolding check_removal remove_account
delete_user storage_key fails actor target db t =
    let removed = remove_account storage_key fails actor target db t in
    elim (check_removal actor target db) [
      | err e ↦ (err (rejected e), t)
      | ok _ ↦ (map_error cleanup removed.0, removed.1)
    ]
