-- ===== src/Guest/Credentials/Roundtrip.antt =====
-- The server accepts the cookies and tokens that it gave out.
use picture_stage.Base.{
  ℕ, ◌+◌, ◌*◌, ◌/◌, ◌<◌, ◌≡◌, refl, inl, inr, true, false, Option, none, some, Bytes, arith,
  bytes_eq, bytes_eq_refl, eq_of_bytes_eq, Bool-cases, Option-cases,
}
use picture_stage.Base.Results.{ok}
use picture_stage.Guest.Credentials.{
  Cookie, Purpose, session, gate, Signing, second, guest_session_ttl, Request, without_session,
  is_over, is_signed, is_proved, seal, open_cookie, browser_cookie_session_id, browser_session,
  password_challenge, verify_password_csrf, cookie_session, request_session_id,
}

module _ (g : Signing) (gallery : ℕ) where
  -- A sealed cookie opens exactly until its deadline, which is twelve hours ahead to the second.
  open_cookie-seal :
      (purpose : Purpose) (now later : ℕ) (value : Bytes)
      → later < (now / second + guest_session_ttl) * second
      → open_cookie g gallery purpose later (some (seal g gallery purpose now value)) ≡ some value
  unfolding open_cookie seal
  open_cookie-seal purpose now later value soon =
      let signed =
        bytes_eq_refl
          (g.seal_mac purpose gallery value (some (now / second + guest_session_ttl))) in
      rw signed (ground (arith, soon))

  is_proved_own :
      (purpose : Purpose) (k : Cookie)
      → is_proved (some (g.csrf_mac purpose gallery k)) (g.csrf_mac purpose gallery k) ≡ true
  is_proved_own purpose k =
      let filled = g.csrf_mac_filled purpose gallery k in
      let same = bytes_eq_refl (g.csrf_mac purpose gallery k) in rw same (ground (arith, filled))

  -- A request of the page that a cookie and its token were given to.
  abbrev pub from_page : Cookie → Bytes → Request
  from_page k token = record {
    session_cookie = some k;
    gate_cookie = none;
    session_header = none;
    csrf_header = some token;
  }

  pub own_page_accepted :
      (later id : ℕ) (k : Cookie)
      → open_cookie g gallery session later (some k) ≡ some (g.text id)
      → request_session_id g gallery later without_session
          (from_page k (g.csrf_mac session gallery k))
        ≡ ok (some id)
  unfolding request_session_id cookie_session browser_cookie_session_id
  own_page_accepted later id k opens = rw (opens, g.uuid_text id, is_proved_own session k) refl

  open_cookie_later :
      (purpose : Purpose) (now later : ℕ) (k : Cookie) {value : Bytes}
      → open_cookie g gallery purpose now (some k) ≡ some value
      → is_over later k.deadline ≡ false
      → open_cookie g gallery purpose later (some k) ≡ some value
  unfolding open_cookie
  open_cookie_later purpose now later k e soon = elim (Bool-cases (is_signed g gallery purpose k)) [
    | inr f ↦ let closed = rw f at e in cc
    | inl t ↦ elim (Bool-cases (is_over now k.deadline)) [
      | inl over ↦ let closed = rw (t, over) at e in cc
      | inr in_time ↦ let same = rw (t, in_time) at e in rw (t, soon) same
    ]
  ]

  seal_opens_now :
      (purpose : Purpose) (now : ℕ) (value : Bytes)
      → open_cookie g gallery purpose now (some (seal g gallery purpose now value)) ≡ some value
  seal_opens_now purpose now value = open_cookie-seal purpose now now value (omega arith)

  without_cookie : (purpose : Purpose) (now : ℕ) → open_cookie g gallery purpose now none ≡ none
  unfolding open_cookie
  without_cookie purpose now = refl

  -- The browser's cookie, kept or drawn, opens to the session.
  browser_session_opens :
      (now id : ℕ) (cookie : Option Cookie)
      → open_cookie g gallery session now (some (browser_session g gallery now id cookie).0)
        ≡ some (g.text id)
  unfolding browser_session
  browser_session_opens now id none =
      rw (without_cookie session now) (seal_opens_now session now (g.text id))
  browser_session_opens now id (some k) =
      elim (Option-cases (open_cookie g gallery session now (some k))) [
        | inl closed ↦ rw closed (seal_opens_now session now (g.text id))
        | inr (value, opened) ↦ elim (Bool-cases (bytes_eq value (g.text id))) [
          | inr other ↦ rw (opened, other) (seal_opens_now session now (g.text id))
          | inl same ↦
              let v = eq_of_bytes_eq value (g.text id) same in rw (opened, same) (rw v at opened)
        ]
      ]

  -- Until the deadline of the cookie, which a visit may have kept from an earlier one, a change that
  -- the page asks for with its cookie and its token acts for the page's session; and a cookie that
  -- opens to the session is kept as it is, so that a visit does not move its deadline.
  pub browser_session-roundtrip :
      (now later id : ℕ) (cookie : Option Cookie)
      → is_over later (browser_session g gallery now id cookie).0.deadline ≡ false
      → (request_session_id g gallery later without_session (
            from_page
              (browser_session g gallery now id cookie).0
              (browser_session g gallery now id cookie).1)
          ≡ ok (some id))
        × ((k : Cookie)
            → cookie ≡ some k
            → open_cookie g gallery session now cookie ≡ some (g.text id)
            → (browser_session g gallery now id cookie).0 ≡ k)
  unfolding browser_session
  browser_session-roundtrip now later id cookie soon = (
    own_page_accepted later id (browser_session g gallery now id cookie).0 (
        open_cookie_later session now later (browser_session g gallery now id cookie).0
          (browser_session_opens now id cookie) soon),
    λ k sent opened. rw (opened, bytes_eq_refl (g.text id), sent) refl,
  )

  own_answer_accepted :
      (now : ℕ) (k : Cookie) (r : Request) {value : Bytes}
      → open_cookie g gallery gate now (some k) ≡ some value
      → verify_password_csrf g gallery now
          (record r { gate_cookie = some k })
          (some (g.csrf_mac gate gallery k))
        ≡ ok tt
  unfolding verify_password_csrf
  own_answer_accepted now k r opens = rw (opens, is_proved_own gate k) refl

  -- The cookie of a challenge, kept or drawn, opens.
  password_challenge_opens :
      (now : ℕ) (random : Bytes) (r : Request)
      → (value : Bytes) × (open_cookie g gallery gate now
            (some (password_challenge g gallery now random r).0)
          ≡ some value)
  unfolding password_challenge
  password_challenge_opens now random r =
      elim (Option-cases (open_cookie g gallery gate now r.gate_cookie)) [
        | inl closed ↦ (random, rw closed (seal_opens_now gate now random))
        | inr (value, opened) ↦ elim (Option-cases r.gate_cookie) [
          | inl unsent ↦
              let closed = without_cookie gate now in
              let never = rw (unsent, closed) at opened in cc
          | inr (k, sent) ↦ (value, rw (opened, sent) (rw sent at opened))
        ]
      ]

  -- The answer to a password challenge with the cookie and the token that it gave is accepted.
  pub password_challenge-verify_password_csrf :
      (now : ℕ) (random : Bytes) (r : Request)
      → verify_password_csrf g gallery now
          (record r { gate_cookie = some (password_challenge g gallery now random r).0 })
          (some (password_challenge g gallery now random r).1)
        ≡ ok tt
  unfolding password_challenge
  password_challenge-verify_password_csrf now random r =
      let (value, opens) = password_challenge_opens now random r in
      own_answer_accepted now (password_challenge g gallery now random r).0 r opens
