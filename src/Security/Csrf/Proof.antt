-- ===== src/Security/Csrf/Proof.antt =====
-- What a request must prove to `CSRFMiddleware` of app/security/middleware.py, and the proof of a
-- browser that plays back what it was given.
use picture_stage.Base.{
  ◌≡◌, refl, inl, inr, Bool, true, false, ◌&&◌, Option, none, some, Bytes, arith, is_filled,
  Bool-cases, Option-cases, eq_of_bytes_eq, bytes_eq_refl, ap, ◌∙◌,
}
use picture_stage.Security.Csrf.{
  Request, get, is_safe, is_exempt, Verdict, passes, rejected, dispatch, dispatch_safe,
  dispatch_unsafe, verify_tokens, submitted, same_token, fits_session,
}

-- The cookie that the browser holds after the response.
abbrev pub cookie_after : Option Bytes → Verdict → Option Bytes
cookie_after held (passes _ none) = held
cookie_after held (passes _ (some issued)) = some issued
cookie_after held rejected = held

all_pass : (a b c d : Bool) → (a && b && c && d) ≡ true → (a ≡ true) × (b ≡ true) × (d ≡ true)
all_pass a b c d h = (ground arith, ground arith, ground arith)

same_token_sound : (o : Option Bytes) (t : Bytes) → same_token o t ≡ true → o ≡ some t
same_token_sound none t h = cc
same_token_sound (some s) t h = ap some (eq_of_bytes_eq s t h)

fits_session_sound :
    (mac : Bytes → Bytes) (session : Option Bytes) (cookie s : Bytes)
    → fits_session mac session cookie ≡ true
    → session ≡ some s
    → is_filled (some s) ≡ true
    → cookie ≡ mac s
fits_session_sound mac none cookie s h e f = cc
fits_session_sound mac (some s') cookie s h e f =
    let same : s' ≡ s = ground (arith, e) in
    eq_of_bytes_eq cookie (mac s) (ground (arith, h, same, f, ap mac same, ap is_filled e))

module _ (mac : Bytes → Bytes) (fresh : Bytes) where
  -- A request that changes state, outside the exempt routes, goes on only with a cookie that is
  -- not empty, with the same token submitted in its header or its form, and, where it carries a
  -- session, with the token that is derived from this session.
  pub dispatch-proves :
      (r : Request) {token issued : Option Bytes}
      → is_exempt r.path ≡ false
      → is_safe r.method ≡ false
      → dispatch mac fresh r ≡ passes token issued
      → (cookie : Bytes) × (r.csrf_token ≡ some cookie)
        × (submitted r ≡ some cookie)
        × (is_filled (some cookie) ≡ true)
        × ((s : Bytes) → r.session ≡ some s → is_filled (some s) ≡ true → cookie ≡ mac s)
  unfolding dispatch dispatch_unsafe verify_tokens
  dispatch-proves r guarded unsafe e = elim (Option-cases r.csrf_token) [
    | inl absent ↦ ground (arith, guarded, unsafe, absent)
    | inr (cookie, there) ↦
        let checks =
          is_filled (some cookie)
          && fits_session mac r.session cookie
          && is_filled (submitted r)
          && same_token (submitted r) cookie in
        elim (Bool-cases checks) [
          | inr failed ↦ cc (rw (guarded, unsafe, there, failed) at e)
          | inl fine ↦
              let (filled, fits, same) =
                all_pass (is_filled (some cookie)) (fits_session mac r.session cookie)
                  (is_filled (submitted r)) (same_token (submitted r) cookie) fine in
              (
                cookie,
                there,
                same_token_sound (submitted r) cookie same,
                filled,
                λ s q f. fits_session_sound mac r.session cookie s fits q f,
              )
        ]
  ]

  page_cookie :
      (page : Request) (s : Bytes)
      → is_filled (some s) ≡ true
      → is_exempt page.path ≡ false
      → page.method ≡ get
      → page.session ≡ some s
      → cookie_after page.csrf_token (dispatch mac fresh page) ≡ some (mac s)
  unfolding dispatch dispatch_safe
  page_cookie page s full guarded is_page visits =
      elim (Bool-cases (is_filled page.csrf_token && same_token page.csrf_token (mac s))) [
        | inl kept ↦
            rw (guarded, is_page, visits, full, kept)
              (same_token_sound page.csrf_token (mac s) (ground (arith, kept)))
        | inr renewed ↦ rw (guarded, is_page, visits, full, renewed) refl
      ]

  change_passes :
      (change : Request) (s : Bytes)
      → is_filled (some s) ≡ true
      → is_filled (some (mac s)) ≡ true
      → is_exempt change.path ≡ false
      → is_safe change.method ≡ false
      → change.session ≡ some s
      → change.csrf_token ≡ some (mac s)
      → change.header_token ≡ some (mac s)
      → dispatch mac fresh change ≡ passes (some (mac s)) none
  unfolding dispatch dispatch_unsafe verify_tokens submitted
  change_passes change s full keyed guarded unsafe same held sent =
      rw (guarded, unsafe, held, same, sent, keyed, full, bytes_eq_refl (mac s), keyed) refl

  -- After a GET with a session the browser holds the token that is derived from the session, and a
  -- request that changes state with this session, this cookie and this token in its header goes
  -- on, where neither the session nor its token is empty.
  pub dispatch-roundtrip :
      (page change : Request) (s : Bytes)
      → is_filled (some s) ≡ true
      → is_filled (some (mac s)) ≡ true
      → is_exempt page.path ≡ false
      → page.method ≡ get
      → page.session ≡ some s
      → is_exempt change.path ≡ false
      → is_safe change.method ≡ false
      → change.session ≡ some s
      → change.csrf_token ≡ cookie_after page.csrf_token (dispatch mac fresh page)
      → change.header_token ≡ cookie_after page.csrf_token (dispatch mac fresh page)
      → (cookie_after page.csrf_token (dispatch mac fresh page) ≡ some (mac s))
        × (dispatch mac fresh change ≡ passes (some (mac s)) none)
  unfolding dispatch
  dispatch-roundtrip page change s full keyed guarded is_page visits changing unsafe same held
        sent =
      let holds : cookie_after page.csrf_token (dispatch mac fresh page) ≡ some (mac s) =
        page_cookie page s full guarded is_page visits in
      (holds, change_passes change s full keyed changing unsafe same (held ∙ holds) (sent ∙ holds))
