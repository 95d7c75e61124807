-- ===== src/Security/Captcha/Once.antt =====
-- A proof of work serves for one signup.
use picture_stage.Base.{
  ℕ, ◌*◌, ◌≤◌, ◌<◌, ◌≡◌, refl, inl, inr, Bool, true, false, not, Option, none, some, List, [], ◌∷◌,
  Bytes, arith, bytes_eq, bytes_eq_refl, eq_of_bytes_eq, length, any, All, All-filter, Bool-cases,
}
use mathlib.Core.Path.{subst, sym}
use picture_stage.Base.Results.{ok, ok_inj}
use picture_stage.Security.Captcha.{
  second, ledger_capacity, CaptchaRedemption, Ledger, has_signature, delete_expired, expired_rows,
  Proof, has_policy, is_well_formed, is_fresh, verify_signup_proof,
}
use picture_stage.Security.Captcha.Redeemed.{
  Redemptions, at_start, redeemed, redeem-IsRedeemed, IsLedger, IsRow, IsSpent,
  delete_expired-IsSpent, delete_expired_keeps,
}

-- No signature stands twice in a list.
abbrev pub AreDistinct : List Bytes → Type 0
AreDistinct [] = Unit
AreDistinct (s ∷ signatures) = (any (bytes_eq s) signatures ≡ false) × AreDistinct signatures

module _ (expiry : Bytes → ℕ) where
  delete_expired_rows :
      (now : ℕ) (ledger : Ledger)
      → All (IsRow expiry) ledger
      → All (IsRow expiry) (delete_expired now ledger)
  unfolding delete_expired
  delete_expired_rows now ledger rows =
      All-filter (IsRow expiry)
        (λ r. not (any (has_signature r.signature) (expired_rows now ledger))) ledger rows

  Redemptions-IsLedger :
      {now : ℕ} {signatures : List Bytes} {ledger : Ledger}
      → Redemptions expiry now signatures ledger
      → IsLedger expiry now signatures ledger
  Redemptions-IsLedger at_start = record { spent = tt; rows = tt; bounded = ground arith }
  Redemptions-IsLedger {signatures = _ ∷ signatures}
        (redeemed {before = before} {ledger = ledger} r gate now s le e) =
      let h = Redemptions-IsLedger r in
      let done = redeem-IsRedeemed gate now s (expiry s) ledger e in
      let row : CaptchaRedemption = record { signature = s; expires_at = expiry s } in
      subst (λ (l : Ledger). IsLedger expiry now (s ∷ signatures) l) (sym done.entered)
        (record {
          spent = (
            inl (rw (bytes_eq_refl s) refl),
            delete_expired-IsSpent expiry before now row ledger signatures le h.rows h.spent,
          );
          rows = (refl, delete_expired_rows now ledger h.rows);
          bounded = ground (arith, done.room);
        })

  -- A signature that is redeemed was not redeemed before.
  redeemed_is_new :
      (before now : ℕ) (s : Bytes) (ledger : Ledger) (signatures : List Bytes)
      → All (IsRow expiry) ledger
      → before ≤ now
      → now < expiry s * second
      → any (has_signature s) (delete_expired now ledger) ≡ false
      → All (IsSpent expiry before ledger) signatures
      → any (bytes_eq s) signatures ≡ false
  redeemed_is_new before now s ledger [] rows le early fresh h = refl
  redeemed_is_new before now s ledger (t ∷ signatures) rows le early fresh h =
      elim (Bool-cases (bytes_eq s t)) [
        | inr other ↦
            rw other (redeemed_is_new before now s ledger signatures rows le early fresh h.1)
        | inl same ↦
            let again : IsSpent expiry before ledger s =
              subst (λ (x : Bytes). IsSpent expiry before ledger x) (sym (eq_of_bytes_eq s t same))
                h.0 in
            elim again [
              | inr over ↦ ground (arith, over, early, le)
              | inl held ↦ elim (delete_expired_keeps expiry now s ledger rows held) [
                | inl kept ↦ ground (arith, kept, fresh)
                | inr over ↦ ground (arith, over, early)
              ]
            ]
      ]

  -- On a clock that does not go back, and where a challenge's signature fixes its expiry: however many
  -- signups redeem their proofs one after the other, no proof is redeemed twice, and the ledger never
  -- holds more than its capacity.
  pub Redemptions-AreDistinct :
      {now : ℕ} {signatures : List Bytes} {ledger : Ledger}
      → Redemptions expiry now signatures ledger
      → AreDistinct signatures × (length ledger ≤ ledger_capacity)
  Redemptions-AreDistinct at_start = (tt, ground arith)
  Redemptions-AreDistinct {signatures = _ ∷ signatures}
        (redeemed {before = before} {ledger = ledger} r gate now s le e) =
      let h = Redemptions-IsLedger r in
      let done = redeem-IsRedeemed gate now s (expiry s) ledger e in
      (
        (
          redeemed_is_new before now s ledger signatures h.rows le done.in_time done.is_new h.spent,
          (Redemptions-AreDistinct r).0,
        ),
        (Redemptions-IsLedger (redeemed r gate now s le e)).bounded,
      )

-- A proof is taken only with the server's policy, while it is fresh, and if the SDK verifies its
-- solution; its replay key and its expiry are those of its challenge.
pub verify_signup_proof_proves :
    (verified : Proof → Bool) (now : ℕ) (proof : Option Proof) {key : Bytes × ℕ}
    → verify_signup_proof verified now proof ≡ ok key
    → (p : Proof) × (proof ≡ some p)
      × (has_policy p ≡ true)
      × (is_fresh now p ≡ true)
      × (verified p ≡ true)
      × ((p.signature, p.expires_at) ≡ key)
unfolding verify_signup_proof
verify_signup_proof_proves verified now none e = cc
verify_signup_proof_proves verified now (some p) e = elim (Bool-cases (has_policy p)) [
  | inr n ↦ let refused = rw n at e in cc
  | inl policy ↦ elim (Bool-cases (is_well_formed p)) [
    | inr n ↦ let refused = rw (policy, n) at e in cc
    | inl formed ↦ elim (Bool-cases (is_fresh now p)) [
      | inr n ↦ let refused = rw (policy, formed, n) at e in cc
      | inl fresh ↦ elim (Bool-cases (verified p)) [
        | inr n ↦ let refused = rw (policy, formed, fresh, n) at e in cc
        | inl solved ↦
            let given = rw (policy, formed, fresh, solved) at e in
            (p, refl, policy, fresh, solved, ok_inj given)
      ]
    ]
  ]
]
