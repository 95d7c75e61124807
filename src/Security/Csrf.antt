-- ===== src/Security/Csrf.antt =====
-- `CSRFMiddleware` of app/security/middleware.py: the double-submit cookie. `mac` is the keyed
-- digest of a session token, in its base64 form, `fresh` a random token, and
-- `hmac.compare_digest` is equality. A body is given by the first `csrf_token` that it parses to.
pub mod Proof
mod Tests
use picture_stage.Base.{
  Bool, true, false, not, ◌&&◌, ◌||◌, Option, none, some, List, [], ◌∷◌, Bytes, bytes_eq, is_filled,
  is_empty, ◌==◌, if◌then◌else◌,
}

pub data Method : Type 0 where
  get head options trace post put patch delete : Method

-- `SAFE_METHODS`
abbrev pub is_safe : Method → Bool
is_safe get = true
is_safe head = true
is_safe options = true
is_safe trace = true
is_safe _ = false

abbrev pub is_get : Method → Bool
is_get get = true
is_get _ = false

pub record Request : Type 0 where
  pub path : Bytes
  pub method : Method
  pub session : Option Bytes
  pub csrf_token : Option Bytes
  pub header_token : Option Bytes
  pub is_form : Bool
  pub form_token : Option Bytes

-- Character codes: `/` is 47.
abbrev pub logout_path : Bytes
logout_path =
    47 ∷ 97 ∷ 112 ∷ 105 ∷ 47 ∷ 118 ∷ 49 ∷ 47 ∷ 97 ∷ 117 ∷ 116 ∷ 104 ∷ 47 ∷ 108 ∷ 111 ∷ 103 ∷ 111
    ∷ 117 ∷ 116 ∷ []

abbrev api_prefix : Bytes
api_prefix = 47 ∷ 97 ∷ 112 ∷ 105 ∷ 47 ∷ []

abbrev guest_prefix : Bytes
guest_prefix = 47 ∷ 103 ∷ 47 ∷ []

abbrev starts_with : Bytes → Bytes → Bool
starts_with [] path = true
starts_with (_ ∷ _) [] = false
starts_with (a ∷ prefix) (b ∷ path) = a == b && starts_with prefix path

-- `rstrip("/")`
unfoldable pub rstrip : Bytes → Bytes
rstrip [] = []
rstrip (c ∷ path) = let rest = rstrip path in if c == 47 && is_empty rest then [] else c ∷ rest

-- `EXEMPT_PREFIXES`, from which the API's logout is taken out.
unfoldable pub is_exempt : Bytes → Bool
unfolding rstrip
is_exempt path =
    not (bytes_eq (rstrip path) logout_path)
    && (starts_with api_prefix path || starts_with guest_prefix path)

-- What the middleware does with a request: it goes on, with the token that templates see and the
-- cookie that the response sets, or it is refused with 403.
pub data Verdict : Type 0 where
  passes : Option Bytes → Option Bytes → Verdict
  rejected : Verdict

abbrev pub same_token : Option Bytes → Bytes → Bool
same_token none t = false
same_token (some s) t = bytes_eq s t

-- `if csrf_token: request.state.csrf_token = csrf_token`
abbrev seen : Option Bytes → Option Bytes
seen token = if is_filled token then token else none

-- A GET with a session: the cookie is issued again unless it is the session's token.
abbrev renew : Option Bytes → Bytes → Verdict
renew cookie expected =
    passes (seen (some expected))
      (if is_filled cookie && same_token cookie expected then none else some expected)

unfoldable pub dispatch_safe : (Bytes → Bytes) → Bytes → Request → Verdict
dispatch_safe mac fresh r = elim r.session [
  | none ↦
      if is_get r.method && not (is_filled r.csrf_token)
      then passes (seen (some fresh)) (some fresh)
      else passes (seen r.csrf_token) none
  | some s ↦
      if is_get r.method && is_filled (some s)
      then renew r.csrf_token (mac s)
      else if is_get r.method && not (is_filled r.csrf_token)
      then passes (seen (some fresh)) (some fresh)
      else passes (seen r.csrf_token) none
]

-- `header_token or form_token`
unfoldable pub submitted : Request → Option Bytes
submitted r =
    if is_filled r.header_token then r.header_token else if r.is_form then r.form_token else none

-- The session's token, where there is a session.
abbrev pub fits_session : (Bytes → Bytes) → Option Bytes → Bytes → Bool
fits_session mac none cookie = true
fits_session mac (some s) cookie = not (is_filled (some s)) || bytes_eq cookie (mac s)

unfoldable pub verify_tokens : (Bytes → Bytes) → Request → Bytes → Verdict
unfolding submitted
verify_tokens mac r cookie =
    if is_filled (some cookie)
      && fits_session mac r.session cookie
      && is_filled (submitted r)
      && same_token (submitted r) cookie
    then passes (some cookie) none
    else rejected

unfoldable pub dispatch_unsafe : (Bytes → Bytes) → Request → Verdict
unfolding verify_tokens
dispatch_unsafe mac r = elim r.csrf_token [
  | none ↦ rejected
  | some cookie ↦ verify_tokens mac r cookie
]

unfoldable pub dispatch : (Bytes → Bytes) → Bytes → Request → Verdict
unfolding is_exempt dispatch_safe dispatch_unsafe
dispatch mac fresh r =
    if is_exempt r.path
    then passes none none
    else if is_safe r.method
    then dispatch_safe mac fresh r
    else dispatch_unsafe mac r
