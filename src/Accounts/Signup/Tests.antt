-- ===== src/Accounts/Signup/Tests.antt =====
-- Signups at work.
use picture_stage.Base.{◌≡◌, refl, some, [], ◌∷◌}
use picture_stage.Models.{Database}
use picture_stage.Examples.{plain, staffed, waiting}
use picture_stage.Gallery.Share.{verify_token}
use picture_stage.Accounts.Signup.{
  consume_pending_signup, approve_pending_signup, with_verification,
}
use picture_stage.Accounts.Signup.Approval.{Outcome, approve_pending_signup-Outcome}

abbrev confirmed : Database
confirmed = record staffed { pending_signups = with_verification 600 waiting ∷ [] }

link_is_followed :
    consume_pending_signup plain (7 ∷ []) (some 9) 600 staffed
    ≡ (some (with_verification 600 waiting), confirmed)
unfolding consume_pending_signup verify_token
link_is_followed = refl

approve_pending_signup-Outcome_example : Outcome 9 confirmed (approve_pending_signup 11 9 confirmed)
approve_pending_signup-Outcome_example = approve_pending_signup-Outcome 11 9 confirmed
