-- ===== src/Gallery/Removal/ByOwner.antt =====
-- `delete_gallery` of app/galleries/router.py: the owner deletes a gallery, and the audit log keeps who
-- did. An error rolls the database back.
use picture_stage.Base.{
  ℕ, ◌≡◌, ◌≢◌, Bool, true, false, none, some, List, [], ◌∷◌, map, filter, any, is_none, sorted_set,
  find_where, if◌then◌else◌,
}
use picture_stage.Base.Results.{Result, ok, err, map_error}
use picture_stage.Models.{AuditLog, Database, PreviewVariant}
use picture_stage.Storage.Quota.{Tables}
use picture_stage.Gallery.Share.{is_owned}
use picture_stage.Gallery.Removal
use picture_stage.Gallery.Removal.{cleanup_incomplete, accounting, detach, purge_gallery}
use picture_stage.Gallery.Removal.Purge.{IsPurged}

pub data Error : Type 0 where
  not_found : Error
  not_deleted : Removal.Error → Error

-- The entry `gallery_deleted`.
abbrev pub gallery_deleted : ℕ → ℕ → AuditLog
gallery_deleted gallery user = record {
  gallery_id = some gallery;
  actor_user_id = some user;
  actor_session_id = none;
}

abbrev pub with_entry : ℕ → ℕ → Database → Database
with_entry gallery user db = record db { audit_log = gallery_deleted gallery user ∷ db.audit_log }

unfoldable pub delete_gallery :
    (ℕ → ℕ → PreviewVariant → ℕ)
    → (ℕ → Bool)
    → ℕ
    → ℕ
    → Database
    → Tables
    → Result Error (Database × Tables)
delete_gallery storage_key fails gallery user db t =
    if is_none (find_where (is_owned gallery user) db.galleries)
    then err not_found
    else map_error not_deleted
        (purge_gallery storage_key fails gallery (with_entry gallery user db, t))

-- What a deletion by a user may answer.
abbrev pub Outcome :
    (ℕ → Bool) → List ℕ → ℕ → ℕ → Database → Tables → Result Error (Database × Tables) → Type 0
Outcome fails keys gallery user db t (ok (db', t')) =
    (any (is_owned gallery user) db.galleries ≡ true)
    × IsPurged fails keys gallery (with_entry gallery user db) db' t t'
    × (db'.audit_log
        ≡ record (gallery_deleted gallery user) { gallery_id = none }
          ∷ map (detach gallery) db.audit_log)
Outcome fails keys gallery user db t (err not_found) =
    any (is_owned gallery user) db.galleries ≡ false
Outcome fails keys gallery user db t (err (not_deleted (cleanup_incomplete failed))) =
    (any (is_owned gallery user) db.galleries ≡ true)
    × (failed ≡ filter fails (sorted_set keys))
    × (failed ≢ [])
Outcome fails keys gallery user db t (err (not_deleted (accounting _))) = ⊥
