-- ===== src/Security/Captcha/Redeemed.antt =====
-- No proof is redeemed twice, and the ledger stays small.
use picture_stage.Base.{
  ℕ, ◌*◌, ◌≤◌, ◌<◌, ◌≡◌, refl, ◌⊎◌, inl, inr, Bool, true, false, not, List, [], ◌∷◌, Bytes, arith,
  bytes_eq, eq_of_bytes_eq, length, take, filter, any, All, All-take, All-filter, All-order_by,
  order_by, Bool-cases, ltb, leb,
}
use mathlib.Core.Path.{subst, sym}
use picture_stage.Base.Results.{ok, ok_inj}
use picture_stage.Security.Captcha.{
  second, ledger_capacity, CaptchaRedemption, Ledger, is_expired, has_signature, expired_rows,
  delete_expired, redeem,
}

-- The proofs that were redeemed, by their signatures, the last first, with the ledger and the time of
-- the last redemption. `expiry` is what a challenge's signature is over: it fixes the expiry.
pub data Redemptions (expiry : Bytes → ℕ) : ℕ → List Bytes → Ledger → Type 0 where
  at_start : Redemptions expiry 0 [] []
  redeemed :
      {before : ℕ} {signatures : List Bytes} {ledger ledger' : Ledger}
      → Redemptions expiry before signatures ledger
      → (gate : Bool) (now : ℕ) (signature : Bytes) → before ≤ now
      → redeem gate now signature (expiry signature) ledger ≡ ok ledger'
      → Redemptions expiry now (signature ∷ signatures) ledger'

-- What a redemption has found and what it leaves.
pub record IsRedeemed (now : ℕ) (signature : Bytes) (expires_at : ℕ) (ledger ledger' : Ledger)
    : Type 0 where
  pub in_time : now < expires_at * second
  pub room : length (delete_expired now ledger) < ledger_capacity
  pub is_new : any (has_signature signature) (delete_expired now ledger) ≡ false
  pub entered :
      ledger'
      ≡ record { signature = signature; expires_at = expires_at } ∷ delete_expired now ledger

pub redeem-IsRedeemed :
    (gate : Bool) (now : ℕ) (signature : Bytes) (expires_at : ℕ) (ledger : Ledger)
    {ledger' : Ledger}
    → redeem gate now signature expires_at ledger ≡ ok ledger'
    → IsRedeemed now signature expires_at ledger ledger'
unfolding redeem
redeem-IsRedeemed false now signature expires_at ledger e = cc
redeem-IsRedeemed true now signature expires_at ledger e =
    elim (Bool-cases (leb (expires_at * second) now)) [
      | inl late ↦ let refused = rw late at e in cc
      | inr in_time ↦ elim (Bool-cases (leb ledger_capacity (length (delete_expired now ledger)))) [
        | inl full ↦ let refused = rw (in_time, full) at e in cc
        | inr room ↦ elim (Bool-cases (any (has_signature signature) (delete_expired now ledger))) [
          | inl spent ↦ let refused = rw (in_time, room, spent) at e in cc
          | inr fresh ↦
              let given = rw (in_time, room, fresh) at e in
              let same = ok_inj given in
              record {
                in_time = ground (arith, in_time);
                room = ground (arith, room);
                is_new = fresh;
                entered = sym same;
              }
        ]
      ]
    ]

module _ (expiry : Bytes → ℕ) where
  abbrev pub IsRow : CaptchaRedemption → Type 0
  IsRow r = r.expires_at ≡ expiry r.signature

  found_expired :
      (now : ℕ) (s : Bytes) (rows : Ledger)
      → All IsRow rows
      → All (λ r. is_expired now r ≡ true) rows
      → any (has_signature s) rows ≡ true
      → expiry s * second ≤ now
  found_expired now s [] h e t = cc
  found_expired now s (r ∷ rows) h e t = elim (Bool-cases (bytes_eq r.signature s)) [
    | inl same ↦
        let signature = eq_of_bytes_eq r.signature s same in
        subst (λ (x : Bytes). expiry x * second ≤ now) signature
          (rw (sym h.0) (ground (arith, e.0)))
    | inr other ↦ found_expired now s rows h.1 e.1 (rw other at t)
  ]

  All-expired :
      (now : ℕ) (ledger : Ledger)
      → All (λ r. is_expired now r ≡ true) (filter (is_expired now) ledger)
  All-expired now [] = tt
  All-expired now (r ∷ ledger) = elim (Bool-cases (is_expired now r)) [
    | inl t ↦ rw t (t, All-expired now ledger)
    | inr f ↦ rw f (All-expired now ledger)
  ]

  kept_signature :
      (s : Bytes) (rows ledger : Ledger)
      → any (has_signature s) rows ≡ false
      → any (has_signature s) ledger ≡ true
      → any (has_signature s) (filter (λ r. not (any (has_signature r.signature) rows)) ledger)
        ≡ true
  kept_signature s rows [] f t = cc
  kept_signature s rows (r ∷ ledger) f t = elim (Bool-cases (bytes_eq r.signature s)) [
    | inl same ↦
        let signature = eq_of_bytes_eq r.signature s same in
        let stays : any (has_signature r.signature) rows ≡ false =
          subst (λ (x : Bytes). any (has_signature x) rows ≡ false) (sym signature) f in
        rw stays (rw same refl)
    | inr other ↦
        let later = kept_signature s rows ledger f (rw other at t) in
        elim (Bool-cases (any (has_signature r.signature) rows)) [
          | inl gone ↦ rw gone later
          | inr stays ↦ rw stays (rw other later)
        ]
  ]

  -- A redeemed signature leaves the ledger only when its proof has expired.
  pub delete_expired_keeps :
      (now : ℕ) (s : Bytes) (ledger : Ledger)
      → All IsRow ledger
      → any (has_signature s) ledger ≡ true
      → (any (has_signature s) (delete_expired now ledger) ≡ true) ⊎ (expiry s * second ≤ now)
  unfolding delete_expired expired_rows
  delete_expired_keeps now s ledger rows t =
      let expired = filter (is_expired now) ledger in
      let ordered = order_by (λ (r : CaptchaRedemption). r.expires_at) ltb expired in
      elim (Bool-cases (any (has_signature s) (expired_rows now ledger))) [
        | inl found ↦ inr (
            found_expired now s (take 256 ordered)
              (All-take IsRow 256 ordered (
                All-order_by (λ (r : CaptchaRedemption). r.expires_at) ltb IsRow expired
                  (All-filter IsRow (is_expired now) ledger rows)))
              (All-take (λ r. is_expired now r ≡ true) 256 ordered
                (All-order_by (λ (r : CaptchaRedemption). r.expires_at) ltb
                  (λ r. is_expired now r ≡ true) expired (All-expired now ledger)))
              found)
        | inr absent ↦ inl (kept_signature s (expired_rows now ledger) ledger absent t)
      ]

  abbrev pub IsSpent : ℕ → Ledger → Bytes → Type 0
  IsSpent now ledger s = (any (has_signature s) ledger ≡ true) ⊎ (expiry s * second ≤ now)

  -- The ledger remembers every redeemed proof that has not expired.
  pub record IsLedger (now : ℕ) (signatures : List Bytes) (ledger : Ledger) : Type 0 where
    pub spent : All (IsSpent now ledger) signatures
    pub rows : All IsRow ledger
    pub bounded : length ledger ≤ ledger_capacity

  pub delete_expired-IsSpent :
      (before now : ℕ) (r : CaptchaRedemption) (ledger : Ledger) (signatures : List Bytes)
      → before ≤ now
      → All IsRow ledger
      → All (IsSpent before ledger) signatures
      → All (IsSpent now (r ∷ delete_expired now ledger)) signatures
  delete_expired-IsSpent before now r ledger [] le rows h = tt
  delete_expired-IsSpent before now r ledger (s ∷ signatures) le rows h = (
    elim (h.0) [
      | inr over ↦ inr (omega (arith, over, le))
      | inl held ↦ elim (delete_expired_keeps now s ledger rows held) [
        | inl kept ↦ inl (ground (arith, kept))
        | inr over ↦ inr over
      ]
    ],
    delete_expired-IsSpent before now r ledger signatures le rows h.1,
  )
