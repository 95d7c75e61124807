-- ===== src/Lookup/Progress.antt =====
-- app/auth/lookup_progress.py: the signed cookie that carries a lookup's progress to the next
-- request. The cookie is modelled by the four groups that its pattern matches; its text and its
-- name and path are left out. The HMAC, over the purpose, the digest of the token and the payload,
-- is given. Times are in microseconds, as `time.time()` counts parts of a second.
use picture_stage.Base.{
  ℕ, ◌+◌, ◌*◌, ◌/◌, ◌<◌, ◌≤◌, ◌≡◌, arith, not, ◌||◌, Option, none, some, Bytes, bytes_eq,
  bytes_eq_refl, eq_of_bytes_eq, leb, if◌then◌else◌, Bool-cases, inl, inr,
}
use mathlib.Core.Path.{subst}
use picture_stage.Lookup.Scan.{Cursor}

pub data Purpose : Type 0 where
  gallery verification : Purpose

abbrev pub second : ℕ
second = 1000000

abbrev pub lookup_ttl : ℕ
lookup_ttl = 15 * 60

pub record Envelope : Type 0 where
  pub cursor : Cursor
  pub expiry : ℕ
  pub signature : Bytes

-- `LookupProgress._mac`, of a purpose, a digest of a token, a cursor and an expiry.
abbrev pub Mac : Type 0
Mac = Purpose → Bytes → Cursor → ℕ → Bytes

module _ (mac : Mac) (purpose : Purpose) (token_digest : Bytes) where
  unfoldable pub read : ℕ → Option Envelope → Option Cursor
  read now none = none
  read now (some e) =
      if not (bytes_eq e.signature (mac purpose token_digest e.cursor e.expiry))
        || leb (e.expiry * second) now
      then none
      else some e.cursor

  unfoldable pub save : ℕ → Cursor → Envelope
  save now cursor =
      let expiry = now / second + lookup_ttl in
      record {
        cursor = cursor;
        expiry = expiry;
        signature = mac purpose token_digest cursor expiry;
      }

  -- Saved progress is read back in every later request of the next 899 seconds, and in none from
  -- 900 seconds on.
  pub read-save :
      (now later : ℕ) (cursor : Cursor)
      → (later < now + 899 * second → read later (some (save now cursor)) ≡ some cursor)
        × (now + 900 * second ≤ later → read later (some (save now cursor)) ≡ none)
  unfolding read save
  read-save now later cursor =
      let valid = bytes_eq_refl (mac purpose token_digest cursor (now / second + lookup_ttl)) in
      rw valid ((λ soon. ground (arith, soon)), λ late. ground (arith, late))

  -- Progress that is read was signed for the purpose and the token, and has not expired.
  pub read_proves :
      (now : ℕ) (e : Envelope) {cursor : Cursor}
      → read now (some e) ≡ some cursor
      → (e.cursor ≡ cursor)
        × (e.signature ≡ mac purpose token_digest cursor e.expiry)
        × (now < e.expiry * second)
  unfolding read
  read_proves now e {cursor = cursor} h =
      elim (Bool-cases (bytes_eq e.signature (mac purpose token_digest e.cursor e.expiry))) [
        | inr f ↦ let refused = rw f at h in cc
        | inl t ↦ elim (Bool-cases (leb (e.expiry * second) now)) [
          | inl past ↦ let refused = rw (t, past) at h in cc
          | inr open_still ↦
              let given = rw (t, open_still) at h in
              let same : e.cursor ≡ cursor = cc in
              let signed =
                eq_of_bytes_eq e.signature (mac purpose token_digest e.cursor e.expiry) t in
              (
                same,
                subst (λ (k : Cursor). e.signature ≡ mac purpose token_digest k e.expiry) same
                    signed,
                ground (arith, open_still),
              )
        ]
      ]
