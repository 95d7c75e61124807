-- ===== src/Accounts/Auth/Tests.antt =====
-- Authentication and logging out at work.
use picture_stage.Base.{◌≡◌, refl, false, none, some, [], ◌∷◌, arith}
use picture_stage.Base.Results.{ok, err}
use picture_stage.Models.{Database}
use picture_stage.Examples.{staffed, owner, token_of}
use picture_stage.Accounts.Auth.{
  get_current_user, require_active_user, logout_credential, token_revoked,
}
use picture_stage.Accounts.Auth.Logout.{here, logout, LogoutsBefore-refused}

owner_passes : require_active_user (some (token_of 1)) staffed ≡ ok owner
unfolding require_active_user
owner_passes = refl

abbrev logged_out : Database
logged_out = record staffed { revoked_tokens = record { fingerprint = 41; expires_at = 900 } ∷ [] }

owner_logs_out : logout_credential (λ _. false) 600 (some (token_of 1)) none staffed ≡ ok logged_out
unfolding logout_credential
owner_logs_out = refl

abbrev both_out : Database
both_out = record staffed {
  revoked_tokens =
      record { fingerprint = 42; expires_at = 900 }
      ∷ record { fingerprint = 41; expires_at = 900 }
      ∷ [];
}

administrator_logs_out :
    logout_credential (λ _. false) 700 (some (token_of 2)) none logged_out ≡ ok both_out
unfolding logout_credential
administrator_logs_out = refl

LogoutsBefore-refused_example : get_current_user (some (token_of 1)) both_out ≡ err token_revoked
LogoutsBefore-refused_example =
    LogoutsBefore-refused (token_of 1) 900 logged_out
      (record { listed = refl; lasts = (λ _. omega arith, tt) })
      (logout (λ _. false) 700 (some (token_of 2)) none here (omega arith) administrator_logs_out)
