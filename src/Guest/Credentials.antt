-- ===== src/Guest/Credentials.antt =====
-- app/guest/credentials.py: the cookies of a guest's browser. A cookie is modelled by the three
-- parts between its points, of which the second is read as a number; a text of another form, or of
-- more than 256 characters, is no cookie. The HMACs, over the purpose, the gallery and the payload
-- or the whole cookie, are given, and so is the text of a UUID. Times are in microseconds.
pub mod Proof
pub mod Roundtrip
mod Tests
use picture_stage.Base.{
  ℕ, ◌+◌, ◌*◌, ◌/◌, ◌≡◌, Bool, true, false, not, ◌&&◌, ◌||◌, Option, none, some, Bytes, bytes_eq,
  is_filled, is_none, is_some, leb, ◌==◌, if◌then◌else◌,
}
use picture_stage.Base.Results.{Result, ok, err, raise_if}

pub record Cookie : Type 0 where
  pub value : Bytes
  pub deadline : Option ℕ
  pub signature : Bytes

-- Whether a cookie carries a session or a password challenge (`gate`).
pub data Purpose : Type 0 where
  session gate : Purpose

pub record Signing : Type 0 where
  -- `_mac('gate' if gate else 'session', gallery_id, payload)`
  pub seal_mac : Purpose → ℕ → Bytes → Option ℕ → Bytes
  -- `_mac("csrf", …)` and `_mac("gate-csrf", …)` of a whole cookie.
  pub csrf_mac : Purpose → ℕ → Cookie → Bytes
  -- A digest in hexadecimal is not empty.
  pub csrf_mac_filled :
      (purpose : Purpose) (gallery : ℕ) (k : Cookie)
      → is_filled (some (csrf_mac purpose gallery k)) ≡ true
  pub text : ℕ → Bytes
  pub uuid : Bytes → Option ℕ
  pub uuid_text : (id : ℕ) → uuid (text id) ≡ some id

abbrev pub second : ℕ
second = 1000000

abbrev pub guest_session_ttl : ℕ
guest_session_ttl = 12 * 60 * 60

-- The 403s of a mismatched token and of an invalid credential.
pub data Error : Type 0 where
  csrf_mismatch invalid_credential : Error

-- `int(parts[1]) <= time.time()`, or a part that is no number.
abbrev pub is_over : ℕ → Option ℕ → Bool
is_over now none = true
is_over now (some deadline) = leb (deadline * second) now

-- A request: its two cookies for the gallery, the session header, where it is present, with the
-- UUID that it denotes, and the token header.
pub record Request : Type 0 where
  pub session_cookie : Option Cookie
  pub gate_cookie : Option Cookie
  pub session_header : Option (Option ℕ)
  pub csrf_header : Option Bytes

-- A request's body: none, one that leaves `session_id` out, or one that sets it, maybe to null.
pub data Body : Type 0 where
  no_body without_session : Body
  with_session : Option ℕ → Body

abbrev pub body_present : Body → Bool
body_present (with_session _) = true
body_present _ = false

abbrev pub body_id : Body → Option ℕ
body_id (with_session id) = id
body_id _ = none

abbrev pub is_mutation : Body → Bool
is_mutation no_body = false
is_mutation _ = true

abbrev pub same_id : Option ℕ → Option ℕ → Bool
same_id none none = true
same_id (some a) (some b) = a == b
same_id _ _ = false

-- `not submitted or not hmac.compare_digest(…)`, negated.
abbrev pub is_proved : Option Bytes → Bytes → Bool
is_proved none mac = false
is_proved (some submitted) mac = is_filled (some submitted) && bytes_eq submitted mac

module _ (g : Signing) (gallery : ℕ) where
  -- `_seal`
  unfoldable pub seal : Purpose → ℕ → Bytes → Cookie
  seal purpose now value =
      let deadline = some (now / second + guest_session_ttl) in
      record {
        value = value;
        deadline = deadline;
        signature = g.seal_mac purpose gallery value deadline;
      }

  abbrev pub is_signed : Purpose → Cookie → Bool
  is_signed purpose k = bytes_eq k.signature (g.seal_mac purpose gallery k.value k.deadline)

  -- `_open`
  unfoldable pub open_cookie : Purpose → ℕ → Option Cookie → Option Bytes
  open_cookie purpose now none = none
  open_cookie purpose now (some k) =
      if not (is_signed purpose k) || is_over now k.deadline then none else some k.value

  abbrev pub uuid_or_none : Option Bytes → Option ℕ
  uuid_or_none none = none
  uuid_or_none (some text) = g.uuid text

  unfoldable pub browser_cookie_session_id : ℕ → Request → Option ℕ
  browser_cookie_session_id now r = uuid_or_none (open_cookie session now r.session_cookie)

  -- Whether the opened value is the session's id.
  abbrev pub is_text_of : ℕ → Option Bytes → Bool
  is_text_of id none = false
  is_text_of id (some value) = bytes_eq value (g.text id)

  -- The cookie that is kept, or a fresh one.
  abbrev pub cookie_or : Option Cookie → Cookie → Cookie
  cookie_or none fresh = fresh
  cookie_or (some k) fresh = k

  -- `browser_session`: the cookie, and the token that goes into the page.
  unfoldable pub browser_session : ℕ → ℕ → Option Cookie → Cookie × Bytes
  browser_session now id cookie =
      let fresh = seal session now (g.text id) in
      let kept =
        if is_text_of id (open_cookie session now cookie) then cookie_or cookie fresh else fresh in
      (kept, g.csrf_mac session gallery kept)

  -- `password_challenge`, with the random value that it may draw.
  unfoldable pub password_challenge : ℕ → Bytes → Request → Cookie × Bytes
  password_challenge now random r =
      let fresh = seal gate now random in
      let kept =
        if is_none (open_cookie gate now r.gate_cookie)
        then fresh
        else cookie_or r.gate_cookie fresh in
      (kept, g.csrf_mac gate gallery kept)

  abbrev pub proves : Purpose → Option Cookie → Option Bytes → Bool
  proves purpose none submitted = false
  proves purpose (some k) submitted = is_proved submitted (g.csrf_mac purpose gallery k)

  unfoldable pub verify_password_csrf : ℕ → Request → Option Bytes → Result Error (Unit {0})
  verify_password_csrf now r submitted =
      raise_if
        (is_none (open_cookie gate now r.gate_cookie) || not (proves gate r.gate_cookie submitted))
        csrf_mismatch

  -- A credential in the body or in the header.
  unfoldable pub explicit_session : Body → Option (Option ℕ) → Result Error (Option ℕ)
  explicit_session body (some none) = err invalid_credential
  explicit_session body none =
      if is_none (body_id body) then err invalid_credential else ok (body_id body)
  explicit_session body (some (some id)) =
      if body_present body && (is_none (body_id body) || not (same_id (body_id body) (some id)))
      then err invalid_credential
      else ok (some id)

  -- The cookie, for a request without an explicit credential.
  unfoldable pub cookie_session : Body → Request → Option ℕ → Result Error (Option ℕ)
  cookie_session body r none = ok none
  cookie_session body r (some id) =
      if is_mutation body && not (proves session r.session_cookie r.csrf_header)
      then err csrf_mismatch
      else ok (some id)

  unfoldable pub request_session_id : ℕ → Body → Request → Result Error (Option ℕ)
  request_session_id now body r =
      let explicit = explicit_session body r.session_header in
      let from_cookie = cookie_session body r (browser_cookie_session_id now r) in
      if body_present body || is_some r.session_header then explicit else from_cookie
