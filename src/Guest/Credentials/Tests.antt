-- ===== src/Guest/Credentials/Tests.antt =====
-- A visit of a gallery without a password, and the answer to a password challenge.
use picture_stage.Base.{◌*◌, ◌≡◌, refl, ◌⊎◌, none, some, [], ◌∷◌}
use picture_stage.Base.Results.{ok, err}
use picture_stage.Guest.Credentials.{
  Cookie, session, Signing, second, Request, without_session, with_session, seal, open_cookie,
  browser_cookie_session_id, browser_session, request_session_id, explicit_session, cookie_session,
  invalid_credential,
}
use picture_stage.Guest.Credentials.Proof.{IsExplicit, IsAmbient, request_session_id_proves}
use picture_stage.Guest.Credentials.Roundtrip.{from_page, browser_session-roundtrip}

-- Ids are their own texts, of one number; a digest is the purpose's number and the payload.
abbrev signing : Signing
signing = record {
  seal_mac = λ _ gallery value _. gallery ∷ value;
  csrf_mac = λ _ gallery k. gallery ∷ k.value;
  csrf_mac_filled = λ _ _ _. refl;
  text = λ id. id ∷ [];
  uuid = λ s. elim s [ [] ↦ none | ◌∷◌ a _ ↦ some a ];
  uuid_text = λ _. refl;
}

abbrev first_cookie : Cookie
first_cookie = record { value = 30 ∷ []; deadline = some 43205; signature = 5 ∷ 30 ∷ [] }

first_visit : browser_session signing 5 (5 * second) 30 none ≡ (first_cookie, 5 ∷ 30 ∷ [])
unfolding browser_session open_cookie seal
first_visit = refl

abbrev from_first : Request
from_first = from_page signing 5 first_cookie (5 ∷ 30 ∷ [])

change_is_granted :
    request_session_id signing 5 (9 * second) without_session from_first ≡ ok (some 30)
unfolding request_session_id cookie_session browser_cookie_session_id open_cookie explicit_session
change_is_granted = refl

request_session_id_proves_example :
    IsExplicit signing 5 (9 * second) without_session from_first 30
    ⊎ IsAmbient signing 5 (9 * second) without_session from_first 30
request_session_id_proves_example =
    request_session_id_proves signing 5 (9 * second) without_session from_first 30 change_is_granted

null_is_refused :
    request_session_id signing 5 (9 * second) (with_session none) from_first
    ≡ err invalid_credential
unfolding request_session_id explicit_session
null_is_refused = refl

browser_session-roundtrip_example :
    (request_session_id signing 5 (9 * second) without_session from_first ≡ ok (some 30))
    × ((k : Cookie)
        → some first_cookie ≡ some k
        → open_cookie signing 5 session (7 * second) (some first_cookie) ≡ some (30 ∷ [])
        → first_cookie ≡ k)
unfolding browser_session open_cookie
browser_session-roundtrip_example =
    browser_session-roundtrip signing 5 (7 * second) (9 * second) 30 (some first_cookie) refl
