-- ===== src/Accounts/Admin.antt =====
-- app/admin/service.py: what administrators do to accounts. `actor` is the id of the administrator
-- whom `require_admin` has let through. Deleting a user is in Accounts/Removal.
pub mod Changes
pub mod Lockout
mod Tests
use picture_stage.Base.{
  ℕ, Bool, true, false, not, ◌&&◌, Option, none, some, List, [], ◌∷◌, Bytes, count_where,
  find_where, update_where, leb, ◌==◌, if◌then◌else◌,
}
use picture_stage.Base.Int.{ℤ, pos, negsuc}
use picture_stage.Base.Results.{Result, ok, err, raise_if, or_raise, ◌>>=◌, ◌>>◌}
use picture_stage.Models.{
  User, UserStatus, pending, active, admin, disabled, is_admin, AuditLog, Database, Crypto, user_is,
}

-- `AdminActionError`
pub data Error : Type 0 where
  status_pending user_not_found self_status last_admin invalid_limit self_delete : Error

abbrev pub count_admins : Database → ℕ
count_admins db = count_where (λ u. is_admin u.status) db.users

unfoldable pub get_target : ℕ → Database → Result Error User
get_target target db = or_raise (find_where (user_is target) db.users) user_not_found

abbrev pub user_status_eq : UserStatus → UserStatus → Bool
user_status_eq pending pending = true
user_status_eq active active = true
user_status_eq admin admin = true
user_status_eq disabled disabled = true
user_status_eq _ _ = false

abbrev pub is_pending : UserStatus → Bool
is_pending pending = true
is_pending _ = false

-- The new cut-off of a user whose status changes: locking a user ends the issued tokens.
abbrev pub cutoff_after : UserStatus → ℕ → Option ℕ → Option ℕ
cutoff_after disabled now old = some now
cutoff_after _ now old = old

abbrev pub with_status : UserStatus → ℕ → User → User
with_status new_status now u = record u {
  status = new_status;
  tokens_valid_after = cutoff_after new_status now u.tokens_valid_after;
}

-- The entry that an administrator's action leaves.
abbrev pub admin_audit : ℕ → AuditLog
admin_audit actor = record {
  gallery_id = none;
  actor_user_id = some actor;
  actor_session_id = none;
}

abbrev pub write_user : ℕ → ℕ → (User → User) → Database → Database
write_user actor target f db = record db {
  users = update_where (user_is target) f db.users;
  audit_log = admin_audit actor ∷ db.audit_log;
}

unfoldable pub change_user_status :
    ℕ → ℕ → UserStatus → ℕ → Database → Result Error (User × Database)
unfolding get_target
change_user_status actor target new_status now db = do
  raise_if (is_pending new_status) status_pending
  u ← get_target target db
  raise_if (u.id == actor) self_status
  raise_if (is_admin u.status && not (is_admin new_status) && leb (count_admins db) 1) last_admin
  if user_status_eq new_status u.status
      then ok (u, db)
      else ok
          (with_status new_status now u, write_user actor target (with_status new_status now) db)

abbrev pub with_new_password : Crypto → Bytes → ℕ → User → User
with_new_password c password now u = record u {
  password_hash = c.hashpw password;
  tokens_valid_after = some now;
}

unfoldable pub reset_user_password :
    Crypto → ℕ → ℕ → Bytes → ℕ → Database → Result Error (User × Database)
unfolding get_target
reset_user_password c actor target password now db = do
  u ← get_target target db
  ok (
    with_new_password c password now u,
    write_user actor target (with_new_password c password now) db,
  )

-- `override is not None and override < 0`
abbrev pub is_invalid_limit : Option ℤ → Bool
is_invalid_limit (some (negsuc _)) = true
is_invalid_limit _ = false

abbrev pub with_limit : Option ℤ → User → User
with_limit override u = record u { gallery_limit_override = override }

unfoldable pub set_gallery_limit_override :
    ℕ → ℕ → Option ℤ → Database → Result Error (User × Database)
unfolding get_target
set_gallery_limit_override actor target override db = do
  raise_if (is_invalid_limit override) invalid_limit
  u ← get_target target db
  ok (with_limit override u, write_user actor target (with_limit override) db)
