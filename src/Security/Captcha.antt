-- ===== src/Security/Captcha.antt =====
-- app/security/captcha.py: the proof of work of a signup and the ledger of redeemed proofs. A proof
-- is given by what its JSON decodes to, and the SDK by whether it verifies a solution. Expiries are
-- in seconds; times of day in microseconds.
pub mod Redeemed
pub mod Once
mod Tests
use picture_stage.Base.{
  ℕ, ◌+◌, ◌*◌, ◌^◌, ◌≡◌, Bool, true, false, not, ◌&&◌, ◌||◌, Option, none, some, List, [], ◌∷◌, map,
  Bytes, bytes_eq, length, take, filter, any, all, order_by, ltb, leb, ◌==◌, if◌then◌else◌,
}
use picture_stage.Base.Results.{Result, ok, err, raise_if, or_raise, ◌>>=◌, ◌>>◌}

pub data Error : Type 0 where
  captcha_invalid captcha_unavailable : Error

pub record Proof : Type 0 where
  pub algorithm_matches : Bool
  pub purpose_matches : Bool
  pub key_prefix : Bytes
  pub cost : ℕ
  pub key_length : ℕ
  pub nonce : Bytes
  pub salt : Bytes
  pub issued_at : ℕ
  pub expires_at : ℕ
  pub signature : Bytes
  pub derived_key : Bytes
  pub counter : ℕ
  -- In milliseconds, rounded up.
  pub time : Option ℕ

abbrev pub second : ℕ
second = 1000000

abbrev pub challenge_ttl_seconds : ℕ
challenge_ttl_seconds = 300

abbrev pub ledger_capacity : ℕ
ledger_capacity = 10000

-- `[0-9a-f]`
abbrev pub is_hex_digit : ℕ → Bool
is_hex_digit a = leb 48 a && leb a 57 || leb 97 a && leb a 102

unfoldable pub is_hex : ℕ → Bytes → Bool
is_hex digits s = length s == digits && all is_hex_digit s

-- `params["keyPrefix"] == "00"` and the other constants of a challenge.
unfoldable pub has_policy : Proof → Bool
has_policy p =
    p.algorithm_matches
    && bytes_eq p.key_prefix (48 ∷ 48 ∷ [])
    && p.cost == 5000
    && p.key_length == 32
    && p.purpose_matches

abbrev pub is_possible_time : Option ℕ → Bool
is_possible_time none = true
is_possible_time (some t) = leb t (challenge_ttl_seconds * 1000)

unfoldable pub is_fresh : ℕ → Proof → Bool
is_fresh now p =
    p.expires_at == p.issued_at + challenge_ttl_seconds
    && leb (p.issued_at * second) now
    && ltb now (p.expires_at * second)
    && ltb p.counter (2 ^ 32)
    && is_possible_time p.time

unfoldable pub is_well_formed : Proof → Bool
is_well_formed p =
    is_hex 32 p.nonce && is_hex 32 p.salt && is_hex 64 p.signature && is_hex 64 p.derived_key

-- The replay key and the expiry of a proof; `none` is a proof that does not decode.
unfoldable pub verify_signup_proof : (Proof → Bool) → ℕ → Option Proof → Result Error (Bytes × ℕ)
verify_signup_proof verified now proof = do
  p ← or_raise proof captcha_invalid
  raise_if (not (has_policy p)) captcha_invalid
  raise_if (not (is_well_formed p)) captcha_invalid
  raise_if (not (is_fresh now p)) captcha_invalid
  raise_if (not (verified p)) captcha_invalid
  ok (p.signature, p.expires_at)

-- A row of `captcha_redemptions`.
pub record CaptchaRedemption : Type 0 where
  pub signature : Bytes
  pub expires_at : ℕ

abbrev pub Ledger : Type 0
Ledger = List CaptchaRedemption

abbrev pub is_expired : ℕ → CaptchaRedemption → Bool
is_expired now r = leb (r.expires_at * second) now

abbrev pub has_signature : Bytes → CaptchaRedemption → Bool
has_signature s r = bytes_eq r.signature s

-- The oldest expired rows, at most 256.
unfoldable pub expired_rows : ℕ → Ledger → Ledger
expired_rows now ledger =
    take 256 (order_by (λ r. r.expires_at) ltb (filter (is_expired now) ledger))

unfoldable pub delete_expired : ℕ → Ledger → Ledger
delete_expired now ledger =
    let rows = expired_rows now ledger in
    filter (λ r. not (any (has_signature r.signature) rows)) ledger

-- The transaction; what raises in it is rolled back.
unfoldable pub redeem : Bool → ℕ → Bytes → ℕ → Ledger → Result Error Ledger
redeem gate now signature expires_at ledger = do
  raise_if (not gate) captcha_unavailable
  raise_if (leb (expires_at * second) now) captcha_invalid
  raise_if (leb ledger_capacity (length (delete_expired now ledger))) captcha_unavailable
  raise_if (any (has_signature signature) (delete_expired now ledger)) captcha_invalid
  ok (record { signature = signature; expires_at = expires_at } ∷ delete_expired now ledger)

-- `require_signup_captcha`, where the proof is verified before the transaction begins.
unfoldable pub require_signup_captcha :
    (Proof → Bool) → Bool → Bool → ℕ → ℕ → Option Proof → Ledger → Result Error Ledger
require_signup_captcha verified captcha_enabled gate verified_at now proof ledger =
    if not captcha_enabled
    then ok ledger
    else verify_signup_proof verified verified_at proof >>= λ p. redeem gate now p.0 p.1 ledger
