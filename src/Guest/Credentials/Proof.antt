-- ===== src/Guest/Credentials/Proof.antt =====
-- What the credential of a guest's request proves, and that the server's own cookies are accepted.
use picture_stage.Base.{
  ℕ, ◌≡◌, refl, ◌⊎◌, inl, inr, true, false, ◌||◌, Option, none, some, Bytes, arith, eq_of_bytes_eq,
  Bool-cases, Option-cases, is_some, ◌==◌,
}
use mathlib.Core.Path.{subst}
use picture_stage.Base.Results.{ok}
use picture_stage.Guest.Credentials.{
  Cookie, session, Signing, Request, Body, no_body, without_session, with_session, body_present,
  body_id, is_mutation, is_over, is_signed, is_proved, open_cookie, browser_cookie_session_id,
  explicit_session, cookie_session, request_session_id,
}

-- A cookie that names a session: signed for the gallery, before its deadline.
pub record IsOpen (g : Signing) (gallery now : ℕ) (k : Cookie) (id : ℕ) : Type 0 where
  pub is_authentic : k.signature ≡ g.seal_mac session gallery k.value k.deadline
  pub is_in_time : is_over now k.deadline ≡ false
  pub names : g.uuid k.value ≡ some id

module _ (g : Signing) (gallery now : ℕ) (body : Body) (r : Request) (id : ℕ) where
  -- A credential that the request states: the body's and the header's, where they are present, are it.
  pub record IsExplicit : Type 0 where
    pub is_stated : (body_present body || is_some r.session_header) ≡ true
    pub of_body : body_present body ≡ true → body_id body ≡ some id
    pub of_header : is_some r.session_header ≡ true → r.session_header ≡ some (some id)

  -- A credential of the browser, with the page's token where the request has a body.
  pub record IsAmbient : Type 0 where
    pub not_stated : (body_present body || is_some r.session_header) ≡ false
    pub cookie : Cookie
    pub is_sent : r.session_cookie ≡ some cookie
    pub is_open : IsOpen g gallery now cookie id
    pub is_intended :
        is_mutation body ≡ true → r.csrf_header ≡ some (g.csrf_mac session gallery cookie)

  explicit_session-IsExplicit :
      (b : Body) (header : Option (Option ℕ))
      → (body_present b || is_some header) ≡ true
      → explicit_session g gallery b header ≡ ok (some id)
      → (body_present b ≡ true → body_id b ≡ some id)
        × (is_some header ≡ true → header ≡ some (some id))
  unfolding explicit_session
  explicit_session-IsExplicit no_body none h e = cc
  explicit_session-IsExplicit without_session none h e = cc
  explicit_session-IsExplicit (with_session none) none h e = cc
  explicit_session-IsExplicit (with_session (some a)) none h e = ((λ _. cc), λ x. cc)
  explicit_session-IsExplicit b (some none) h e = cc
  explicit_session-IsExplicit no_body (some (some a)) h e = ((λ x. cc), λ x. cc)
  explicit_session-IsExplicit without_session (some (some a)) h e = ((λ x. cc), λ x. cc)
  explicit_session-IsExplicit (with_session none) (some (some a)) h e = cc
  explicit_session-IsExplicit (with_session (some b)) (some (some a)) h e =
      elim (Bool-cases (b == a)) [
        | inr differs ↦ let refused = rw differs at e in cc
        | inl t ↦
            let given = rw t at e in
            let header : a ≡ id = cc in let both : b ≡ a = ground (arith, t) in ((λ _. cc), λ x. cc)
      ]

  is_proved-eq :
      (submitted : Option Bytes) (mac : Bytes)
      → is_proved submitted mac ≡ true
      → submitted ≡ some mac
  is_proved-eq none mac e = cc
  is_proved-eq (some s) mac e = let same = eq_of_bytes_eq s mac (ground (arith, e)) in cc

  browser_cookie_session_id-IsOpen :
      (k : Cookie) (i : ℕ)
      → browser_cookie_session_id g gallery now (record r { session_cookie = some k }) ≡ some i
      → IsOpen g gallery now k i
  unfolding browser_cookie_session_id open_cookie
  browser_cookie_session_id-IsOpen k i e = elim (Bool-cases (is_signed g gallery session k)) [
    | inr f ↦ let closed = rw f at e in cc
    | inl t ↦ elim (Bool-cases (is_over now k.deadline)) [
      | inl over ↦ let closed = rw (t, over) at e in cc
      | inr in_time ↦
          let named = rw (t, in_time) at e in
          record {
            is_authentic =
                eq_of_bytes_eq k.signature (g.seal_mac session gallery k.value k.deadline) t;
            is_in_time = in_time;
            names = named;
          }
    ]
  ]

  -- The token of a request that is let through, where the request has a body.
  cookie_session-intended :
      (k : Cookie) (i : ℕ)
      → cookie_session g gallery body (record r { session_cookie = some k }) (some i) ≡ ok (some id)
      → (i ≡ id) × (is_mutation body ≡ true → r.csrf_header ≡ some (g.csrf_mac session gallery k))
  unfolding cookie_session
  cookie_session-intended k i e = elim (Bool-cases (is_mutation body)) [
    | inr f ↦ let given = rw f at e in (cc, λ t. let never : true ≡ false = cc in cc)
    | inl t ↦ elim (Bool-cases (is_proved r.csrf_header (g.csrf_mac session gallery k))) [
      | inr f ↦ let refused = rw (t, f) at e in cc
      | inl proved ↦
          let given = rw (t, proved) at e in
          let token = is_proved-eq r.csrf_header (g.csrf_mac session gallery k) proved in
          (cc, λ _. token)
    ]
  ]

  unsent : browser_cookie_session_id g gallery now (record r { session_cookie = none }) ≡ none
  unfolding browser_cookie_session_id open_cookie
  unsent = refl

  cookie_session-IsAmbient :
      (cookie : Option Cookie)
      → r.session_cookie ≡ cookie
      → (body_present body || is_some r.session_header) ≡ false
      → cookie_session g gallery body
          (record r { session_cookie = cookie })
          (browser_cookie_session_id g gallery now (record r { session_cookie = cookie }))
        ≡ ok (some id)
      → IsAmbient
  unfolding cookie_session
  cookie_session-IsAmbient none sent free e = let refused = rw unsent at e in cc
  cookie_session-IsAmbient (some k) sent free e =
      elim (Option-cases
        (browser_cookie_session_id g gallery now (record r { session_cookie = some k }))) [
          | inl unnamed ↦ let refused = rw unnamed at e in cc
          | inr (i, named) ↦
              let given = rw named at e in
              let (same, intended) = cookie_session-intended k i given in
              let opened = browser_cookie_session_id-IsOpen k i named in
              record {
                not_stated = free;
                cookie = k;
                is_sent = sent;
                is_open = subst (λ (x : ℕ). IsOpen g gallery now k x) same opened;
                is_intended = intended;
              }
        ]

  -- A request acts for a session only with a credential that it states itself, in which body and
  -- header agree, or, where it states none, with a cookie that is signed for the gallery and in time, and
  -- with the page's token where it has a body.
  pub request_session_id_proves :
      request_session_id g gallery now body r ≡ ok (some id) → IsExplicit ⊎ IsAmbient
  unfolding request_session_id
  request_session_id_proves e = elim (Bool-cases (body_present body || is_some r.session_header)) [
    | inl stated ↦
        let (of_body, of_header) =
          explicit_session-IsExplicit body r.session_header stated (rw stated at e) in
        inl (record { is_stated = stated; of_body = of_body; of_header = of_header })
    | inr free ↦ inr (cookie_session-IsAmbient r.session_cookie refl free (rw free at e))
  ]
