-- ===== src/Accounts/Admin/Tests.antt =====
-- The services of administrators at work.
use picture_stage.Base.{◌≡◌, refl, [], ◌∷◌}
use picture_stage.Base.Results.{ok, err}
use picture_stage.Models.{User, active, disabled, Database}
use picture_stage.Examples.{plain, staffed, owner}
use picture_stage.Accounts.Admin.{
  change_user_status, reset_user_password, self_status, with_status, with_new_password, write_user,
}

own_status_refused : change_user_status 2 2 active 600 staffed ≡ err self_status
unfolding change_user_status
own_status_refused = refl

abbrev reset : User × Database
reset = (
  with_new_password plain (5 ∷ []) 600 owner,
  write_user 2 1 (with_new_password plain (5 ∷ []) 600) staffed,
)

owner_is_reset : reset_user_password plain 2 1 (5 ∷ []) 600 staffed ≡ ok reset
unfolding reset_user_password
owner_is_reset = refl

abbrev locked : User × Database
locked = (with_status disabled 600 owner, write_user 2 1 (with_status disabled 600) staffed)

owner_is_locked : change_user_status 2 1 disabled 600 staffed ≡ ok locked
unfolding change_user_status
owner_is_locked = refl
