-- ===== src/Accounts/Removal/Removed.antt =====
-- What `delete_user` of app/admin/service.py leaves of an account, and of its charges.
use mathlib.Core.Path.{subst}
use picture_stage.Base.{
  ℕ, ◌≡◌, refl, ◌≢◌, inl, inr, ◌≤◌, Bool, some, List, ◌∷◌, ap, sym, ◌∙◌, find_where,
}
use picture_stage.Base.Results.{Result, ok, err, map_error, Result-cases, ok_inj}
use picture_stage.Models.{User, admin, Database, PreviewVariant, user_is}
use picture_stage.Storage.Quota.{Tables}
use picture_stage.Storage.Quota.Balance.{IsBalanced}
use picture_stage.Gallery.Removal.{Error, delete_storage_keys}
use picture_stage.Gallery.Removal.Purge.{delete_storage_keys-Deletion}
use picture_stage.Accounts.Removal.Charges.{
  purge_all-ArePurged, purge_all-IsBalanced, Covers-locked,
}
use picture_stage.Accounts.Admin
use picture_stage.Accounts.Admin.{get_target, count_admins, admin_audit}
use picture_stage.Accounts.Removal.{
  check_removal, gallery_ids, locked_ids, purge_all, delete_usage, remaining_keys, remove_account,
  delete_user, rejected, cleanup,
}
use picture_stage.Accounts.Removal.Finished.{
  IsRemoved, check_removal-passes, remove_rest_stopped, remove_rest_refused, remove_rest_done,
  finished,
}

module _ (storage_key : ℕ → ℕ → PreviewVariant → ℕ) (fails : ℕ → Bool) (actor target : ℕ)
    (db : Database) (t : Tables) (balanced : IsBalanced t) where
  abbrev purged : Result Error Database × Tables
  purged =
      purge_all storage_key fails (gallery_ids target db)
        (record db { audit_log = admin_audit actor ∷ db.audit_log }) t

  abbrev locked : List ℕ
  locked = locked_ids target db t

  removed :
      {u : User} {db' : Database}
      → find_where (user_is target) db.users ≡ some u
      → u.id ≢ actor
      → (u.status ≡ admin → 2 ≤ count_admins db)
      → (remove_account storage_key fails actor target db t).0 ≡ ok db'
      → IsRemoved actor target db db' (remove_account storage_key fails actor target db t).1
  unfolding remove_account
  removed {u} {db'} found not_self not_last e = elim (Result-cases purged.0) [
    | inr (x, stopped) ↦
        let end = remove_rest_stopped fails target locked purged stopped in
        let no = subst (λ (r : Result Error Database × Tables). r.0 ≡ ok db') end e in cc
    | inl (db1, purges) ↦
        elim (Result-cases
          (delete_storage_keys fails (remaining_keys target locked purged.1) purged.1)) [
            | inr (x, refused) ↦
                let end = remove_rest_refused fails target locked purged purges refused in
                let no = subst (λ (r : Result Error Database × Tables). r.0 ≡ ok db') end e in cc
            | inl (t', deleted) ↦
                let end = remove_rest_done fails target locked purged purges deleted in
                let done =
                  purge_all-ArePurged storage_key fails target locked (gallery_ids target db)
                    (record db { audit_log = admin_audit actor ∷ db.audit_log }) t balanced
                    (Covers-locked target (gallery_ids target db) t.allocations) purges in
                let answer =
                  delete_storage_keys-Deletion fails (remaining_keys target locked purged.1)
                    purged.1 done.balanced in
                let same =
                  ok_inj (subst (λ (r : Result Error Database × Tables). r.0 ≡ ok db') end e) in
                subst (λ (r : Result Error Database × Tables). IsRemoved actor target db db' r.1)
                  (sym end)
                  (subst (λ (d : Database). IsRemoved actor target db d (delete_usage target t'))
                    same
                    (finished storage_key fails actor target db t balanced db1 purged.1 t' found
                      not_self not_last
                      (record {
                        galleries_left = done.galleries_left;
                        users_kept = done.users_kept;
                        balanced = done.balanced;
                        covers = done.covers;
                      })
                      (rw deleted at answer)))
          ]
  ]

  delete_user_passed :
      {u : User}
      → check_removal actor target db ≡ ok u
      → delete_user storage_key fails actor target db t ≡ (
        map_error cleanup (remove_account storage_key fails actor target db t).0,
        (remove_account storage_key fails actor target db t).1,
      )
  unfolding delete_user
  delete_user_passed passed = rw (delete_user, passed) refl

  delete_user_refused :
      {x : Admin.Error}
      → check_removal actor target db ≡ err x
      → delete_user storage_key fails actor target db t ≡ (err (rejected x), t)
  unfolding delete_user
  delete_user_refused refused = rw (delete_user, refused) refl

  -- Where the totals are exact, deleting an account succeeds only for an account other than the
  -- actor's, and for an administrator only while there is another one. It then leaves no row of
  -- the account, of its galleries, of its charges and of its totals; the totals stay exact, and
  -- the other accounts are kept.
  pub delete_user-IsRemoved :
      {db' : Database}
      → (delete_user storage_key fails actor target db t).0 ≡ ok db'
      → IsRemoved actor target db db' (delete_user storage_key fails actor target db t).1
  delete_user-IsRemoved {db'} e = elim (Result-cases (check_removal actor target db)) [
    | inr (x, refused) ↦ let no = rw (delete_user_refused refused) at e in cc
    | inl (u, passed) ↦
        let (found, not_self, not_last) = check_removal-passes actor target db passed in
        let given = rw (delete_user_passed passed) at e in
        rw (delete_user_passed passed)
          (elim (Result-cases (remove_account storage_key fails actor target db t).0) [
            | inr (x, refused) ↦ let no = rw refused at given in cc
            | inl (r, done) ↦
                removed found not_self not_last (done ∙ ap ok (ok_inj (rw done at given)))
          ])
  ]

  remove_account_refused :
      {x : Error}
      → (remove_account storage_key fails actor target db t).0 ≡ err x
      → IsBalanced (remove_account storage_key fails actor target db t).1
  unfolding remove_account
  remove_account_refused {x} e =
      let kept =
        purge_all-IsBalanced storage_key fails target locked (gallery_ids target db)
          (record db { audit_log = admin_audit actor ∷ db.audit_log }) t balanced in
      let ends = λ (r : Result Error Database × Tables). IsBalanced r.1 in
      elim (Result-cases purged.0) [
        | inr (y, stopped) ↦
            subst ends (sym (remove_rest_stopped fails target locked purged stopped)) kept
        | inl (db1, purges) ↦
            elim (Result-cases
              (delete_storage_keys fails (remaining_keys target locked purged.1) purged.1)) [
                | inr (y, refused) ↦
                    subst ends (sym (remove_rest_refused fails target locked purged purges refused))
                      kept
                | inl (t', deleted) ↦
                    let end = remove_rest_done fails target locked purged purges deleted in
                    let no = subst (λ (r : Result Error Database × Tables). r.0 ≡ err x) end e in cc
              ]
      ]

  -- However the deletion of an account ends, the totals stay exact, although refunds of galleries that
  -- were purged before an error remain.
  pub delete_user-IsBalanced : IsBalanced (delete_user storage_key fails actor target db t).1
  delete_user-IsBalanced = elim (Result-cases (check_removal actor target db)) [
    | inr (x, refused) ↦ rw (delete_user_refused refused) balanced
    | inl (u, passed) ↦
        let (found, not_self, not_last) = check_removal-passes actor target db passed in
        rw (delete_user_passed passed)
          (elim (Result-cases (remove_account storage_key fails actor target db t).0) [
            | inr (x, refused) ↦ remove_account_refused refused
            | inl (r, done) ↦ (removed found not_self not_last done).balanced
          ])
  ]
