-- ===== src/Accounts/Auth/Logout.antt =====
-- What `logout_credential` of app/auth/revocation.py revokes, and what its cleanup may forget.
use picture_stage.Base.{
  ℕ, ◌≡◌, refl, ◌≢◌, inl, inr, Bool, true, false, not, Option, none, some, List, [], ◌∷◌, ◌≤◌, ◌<◌,
  arith, any, ap, filter, Bool-cases, ◌==◌, leb, All, All-take, All-filter, take,
}
use mathlib.Core.Path.{subst}
use picture_stage.Base.Results.{ok, err, Result-cases, ok_inj}
use picture_stage.Models.{RevokedToken, Database}
use picture_stage.Accounts.Auth.{
  TokenData, get_current_user, token_revoked, is_token_revoked, has_fingerprint, insert_by_expiry,
  order_by_expiry, is_collectable, expired_window, cleanup_revoked_tokens, insert_revoked,
  chosen_credential, revoke_credential, logout_credential, revoked_token_cleanup_batch,
}

-- The table refuses a fingerprint, and keeps doing so until a time.
pub record IsRevokedUntil (fingerprint until : ℕ) (rows : List RevokedToken) : Type 0 where
  pub listed : any (has_fingerprint fingerprint) rows ≡ true
  pub lasts : All (λ r. r.fingerprint ≡ fingerprint → until ≤ r.expires_at) rows

module _ (P : RevokedToken → Type 0) where
  All-insert_by_expiry :
      (a : RevokedToken) (rows : List RevokedToken)
      → P a
      → All P rows
      → All P (insert_by_expiry a rows)
  unfolding insert_by_expiry
  All-insert_by_expiry a [] p h = (p, tt)
  All-insert_by_expiry a (b ∷ rows) p h = elim (Bool-cases (leb a.expires_at b.expires_at)) [
    | inl t ↦ rw t (p, h)
    | inr f ↦ rw f (h.0, All-insert_by_expiry a rows p h.1)
  ]

  All-order_by_expiry : (rows : List RevokedToken) → All P rows → All P (order_by_expiry rows)
  unfolding order_by_expiry
  All-order_by_expiry [] h = tt
  All-order_by_expiry (a ∷ rows) h =
      All-insert_by_expiry a (order_by_expiry rows) h.0 (All-order_by_expiry rows h.1)

abbrev Unlike : ℕ → RevokedToken → Type 0
Unlike f r = r.fingerprint ≢ f

collectable-Unlike :
    (locked : ℕ → Bool) (f until now : ℕ) (rows : List RevokedToken)
    → now < until
    → All (λ r. r.fingerprint ≡ f → until ≤ r.expires_at) rows
    → All (Unlike f) (filter (is_collectable locked now) rows)
collectable-Unlike locked f until now [] lt h = tt
collectable-Unlike locked f until now (r ∷ rows) lt h =
    elim (Bool-cases (is_collectable locked now r)) [
      | inl t ↦ rw t (λ q. ground (arith, h.0 q), collectable-Unlike locked f until now rows lt h.1)
      | inr n ↦ rw n (collectable-Unlike locked f until now rows lt h.1)
    ]

any-Unlike :
    (f : ℕ) (rows : List RevokedToken) → All (Unlike f) rows → any (has_fingerprint f) rows ≡ false
any-Unlike f [] h = refl
any-Unlike f (r ∷ rows) h = ground (arith, h.0, any-Unlike f rows h.1)

-- Rows of the fingerprint survive a deletion of other fingerprints.
any-filter :
    (f : ℕ) (gone : ℕ → Bool) (rows : List RevokedToken)
    → gone f ≡ false
    → any (has_fingerprint f) (filter (λ r. not (gone r.fingerprint)) rows)
      ≡ any (has_fingerprint f) rows
any-filter f gone [] kept = refl
any-filter f gone (r ∷ rows) kept = elim (Bool-cases (r.fingerprint == f)) [
  | inl t ↦ let same : r.fingerprint ≡ f = ground arith in rw (same, kept) (ground arith)
  | inr n ↦ ground (arith, any-filter f gone rows kept)
]

-- The cleanup forgets no token that has not expired.
cleanup_revoked_tokens-IsRevokedUntil :
    (locked : ℕ → Bool) (f until now : ℕ) (rows : List RevokedToken)
    → now < until
    → IsRevokedUntil f until rows
    → IsRevokedUntil f until (cleanup_revoked_tokens locked now rows)
unfolding cleanup_revoked_tokens expired_window
cleanup_revoked_tokens-IsRevokedUntil locked f until now rows lt h =
    let window = order_by_expiry (filter (is_collectable locked now) rows) in
    let unlike = All-take (Unlike f) revoked_token_cleanup_batch window (
      All-order_by_expiry (Unlike f) (filter (is_collectable locked now) rows)
        (collectable-Unlike locked f until now rows lt h.lasts)) in
    record {
      listed =
          rw
            (any-filter f (λ i. any (has_fingerprint i) (take revoked_token_cleanup_batch window))
              rows (any-Unlike f (take revoked_token_cleanup_batch window) unlike))
            h.listed;
      lasts = All-filter (λ r. r.fingerprint ≡ f → until ≤ r.expires_at) _ rows h.lasts;
    }

-- An insert changes nothing about a fingerprint that is listed.
insert_revoked-IsRevokedUntil :
    (f until : ℕ) (t : TokenData) (rows : List RevokedToken)
    → IsRevokedUntil f until rows
    → IsRevokedUntil f until (insert_revoked t rows)
unfolding insert_revoked
insert_revoked-IsRevokedUntil f until t rows h =
    elim (Bool-cases (any (has_fingerprint t.fingerprint) rows)) [
      | inl there ↦ rw there h
      | inr new ↦ rw new (record {
        listed = ground (arith, h.listed);
        lasts = (
          λ q. absurd (ground (arith, h.listed, new, ap (λ i. any (has_fingerprint i) rows) q)),
          h.lasts,
        );
      })
    ]

insert_revoked-listed :
    (t : TokenData) (rows : List RevokedToken)
    → any (has_fingerprint t.fingerprint) (insert_revoked t rows) ≡ true
unfolding insert_revoked
insert_revoked-listed t rows = elim (Bool-cases (any (has_fingerprint t.fingerprint) rows)) [
  | inl there ↦ rw (there, there) refl
  | inr new ↦ rw new (ground arith)
]

module _ (locked : ℕ → Bool) (now : ℕ) (cookie : Option TokenData)
    (header : Option (Option TokenData)) (db : Database) where
  -- After a logout, every token with the fingerprint of the credential that was chosen is refused.
  pub logout_credential-revokes :
      (t t' : TokenData) {db' : Database}
      → chosen_credential cookie header ≡ ok (some t)
      → logout_credential locked now cookie header db ≡ ok db'
      → t'.fingerprint ≡ t.fingerprint
      → get_current_user (some t') db' ≡ err token_revoked
  unfolding logout_credential get_current_user is_token_revoked revoke_credential
  logout_credential-revokes t t' chosen e same =
      let listed = insert_revoked-listed t (cleanup_revoked_tokens locked now db.revoked_tokens) in
      ground (arith, listed, chosen, same)

  -- A logout leaves a token revoked that was, while the token has not expired.
  pub logout_credential-IsRevokedUntil :
      (f until : ℕ) {db' : Database}
      → now < until
      → IsRevokedUntil f until db.revoked_tokens
      → logout_credential locked now cookie header db ≡ ok db'
      → IsRevokedUntil f until db'.revoked_tokens
  unfolding logout_credential revoke_credential
  logout_credential-IsRevokedUntil f until lt h e =
      elim (Result-cases (chosen_credential cookie header)) [
        | inr (x, refused) ↦ ground arith
        | inl (none, chosen) ↦
            subst (λ (d : Database). IsRevokedUntil f until d.revoked_tokens)
              (ok_inj (rw chosen at e)) h
        | inl (some t, chosen) ↦
            subst (λ (d : Database). IsRevokedUntil f until d.revoked_tokens)
              (ok_inj (rw chosen at e))
              (insert_revoked-IsRevokedUntil f until t
                (cleanup_revoked_tokens locked now db.revoked_tokens)
                (cleanup_revoked_tokens-IsRevokedUntil locked f until now db.revoked_tokens lt h))
      ]

-- Further logouts, each at a time before `until`.
pub data LogoutsBefore (until : ℕ) (db : Database) : Database → Type 0 where
  here : LogoutsBefore until db db
  logout :
      (locked : ℕ → Bool) (now : ℕ) (cookie : Option TokenData) (header : Option (Option TokenData))
      {d d' : Database}
      → LogoutsBefore until db d
      → now < until
      → logout_credential locked now cookie header d ≡ ok d'
      → LogoutsBefore until db d'

LogoutsBefore-IsRevokedUntil :
    (f until : ℕ) {db db' : Database}
    → IsRevokedUntil f until db.revoked_tokens
    → LogoutsBefore until db db'
    → IsRevokedUntil f until db'.revoked_tokens
LogoutsBefore-IsRevokedUntil f until h here = h
LogoutsBefore-IsRevokedUntil f until h (logout locked now cookie header {d = d} r lt e) =
    logout_credential-IsRevokedUntil locked now cookie header d f until lt
      (LogoutsBefore-IsRevokedUntil f until h r) e

-- A token that the table refuses until a time stays refused over any sequence of logouts before
-- that time, with the cleanup that each of them runs.
pub LogoutsBefore-refused :
    (t : TokenData) (until : ℕ) (db : Database) {db' : Database}
    → IsRevokedUntil t.fingerprint until db.revoked_tokens
    → LogoutsBefore until db db'
    → get_current_user (some t) db' ≡ err token_revoked
unfolding get_current_user is_token_revoked
LogoutsBefore-refused t until db h r =
    ground (arith, (LogoutsBefore-IsRevokedUntil t.fingerprint until h r).listed)
