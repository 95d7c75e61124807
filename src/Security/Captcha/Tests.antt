-- ===== src/Security/Captcha/Tests.antt =====
-- Two signups with the same proof.
use picture_stage.Base.{ℕ, ◌*◌, ◌≤◌, ◌≡◌, refl, arith, true, some, [], ◌∷◌, ◌++◌, Bytes, length}
use picture_stage.Base.Results.{ok, err}
use picture_stage.Security.Captcha.{
  Proof, second, ledger_capacity, CaptchaRedemption, has_policy, is_fresh, is_well_formed, is_hex,
  verify_signup_proof, expired_rows, delete_expired, redeem, captcha_invalid,
}
use picture_stage.Security.Captcha.Redeemed.{Redemptions, at_start, redeemed}
use picture_stage.Security.Captcha.Once.{AreDistinct, Redemptions-AreDistinct}

abbrev row : CaptchaRedemption
row = record { signature = 7 ∷ []; expires_at = 300 }

redeems : redeem true 5 (7 ∷ []) 300 [] ≡ ok (row ∷ [])
unfolding redeem delete_expired expired_rows
redeems = refl

again_refused : redeem true 9 (7 ∷ []) 300 (row ∷ []) ≡ err captcha_invalid
unfolding redeem delete_expired expired_rows
again_refused = refl

one_redeemed : Redemptions (λ _. 300) 5 ((7 ∷ []) ∷ []) (row ∷ [])
one_redeemed = redeemed at_start true 5 (7 ∷ []) (omega arith) redeems

Redemptions-AreDistinct_example :
    AreDistinct ((7 ∷ []) ∷ []) × (length (row ∷ []) ≤ ledger_capacity)
Redemptions-AreDistinct_example = Redemptions-AreDistinct (λ _. 300) one_redeemed

abbrev zeros16 : Bytes
zeros16 = 48 ∷ 48 ∷ 48 ∷ 48 ∷ 48 ∷ 48 ∷ 48 ∷ 48 ∷ 48 ∷ 48 ∷ 48 ∷ 48 ∷ 48 ∷ 48 ∷ 48 ∷ 48 ∷ []

abbrev proof : Proof
proof = record {
  algorithm_matches = true;
  purpose_matches = true;
  key_prefix = 48 ∷ 48 ∷ [];
  cost = 5000;
  key_length = 32;
  nonce = zeros16 ++ zeros16;
  salt = zeros16 ++ zeros16;
  issued_at = 100;
  expires_at = 400;
  signature = zeros16 ++ zeros16 ++ zeros16 ++ zeros16;
  derived_key = zeros16 ++ zeros16 ++ zeros16 ++ zeros16;
  counter = 3;
  time = some 20;
}

proof_is_verified :
    verify_signup_proof (λ _. true) (101 * second) (some proof) ≡ ok (proof.signature, 400)
unfolding verify_signup_proof has_policy is_fresh is_well_formed is_hex
proof_is_verified = refl

late_proof_refused :
    verify_signup_proof (λ _. true) (400 * second) (some proof) ≡ err captcha_invalid
unfolding verify_signup_proof has_policy is_fresh is_well_formed is_hex
late_proof_refused = refl

abbrev given_key : Bytes × ℕ
given_key = (proof.signature, 400)
