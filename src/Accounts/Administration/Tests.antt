-- ===== src/Accounts/Administration/Tests.antt =====
-- Requests to the admin API at work.
use picture_stage.Base.{◌≡◌, refl, some, arith}
use picture_stage.Base.Results.{ok}
use picture_stage.Models.{Database, disabled}
use picture_stage.Examples.{
  plain, staffed, charged, charged-IsBalanced, preview_key, administrator, owner, token_of,
}
use picture_stage.Accounts.Auth.{require_admin}
use picture_stage.Accounts.Admin.{change_user_status, with_status, write_user}
use picture_stage.Accounts.Administration.{change_status, here, next}
use picture_stage.Accounts.Administration.Remaining.{IsSound, Steps-IsSound}

abbrev after : Database
after = write_user 2 1 (with_status disabled 600) staffed

administrator_passes : require_admin (some (token_of 2)) staffed ≡ ok administrator
unfolding require_admin
administrator_passes = refl

administrator_locks :
    change_user_status 2 1 disabled 600 staffed ≡ ok (with_status disabled 600 owner, after)
unfolding change_user_status
administrator_locks = refl

Steps-IsSound_example : IsSound after charged
Steps-IsSound_example =
    Steps-IsSound plain preview_key
      (record { balanced = charged-IsBalanced; has_admin = omega arith })
      (next here (
        change_status (some (token_of 2)) administrator 1 disabled 600 administrator_passes
          administrator_locks))
