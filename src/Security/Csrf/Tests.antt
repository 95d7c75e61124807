-- ===== src/Security/Csrf/Tests.antt =====
-- A visit of the dashboard and a change, with a digest that adds one byte.
use picture_stage.Base.{◌≡◌, refl, true, false, none, some, [], ◌∷◌, Bytes, is_filled}
use picture_stage.Security.Csrf.{
  Request, get, post, passes, rejected, dispatch, submitted, is_exempt, logout_path,
}
use picture_stage.Security.Csrf.Proof.{cookie_after, dispatch-proves, dispatch-roundtrip}

abbrev mac : Bytes → Bytes
mac s = 1 ∷ s

-- The path `/d`.
abbrev page : Request
page = record {
  path = 47 ∷ 100 ∷ [];
  method = get;
  session = some (9 ∷ []);
  csrf_token = none;
  header_token = none;
  is_form = false;
  form_token = none;
}

abbrev change : Request
change = record page {
  method = post;
  csrf_token = some (1 ∷ 9 ∷ []);
  header_token = some (1 ∷ 9 ∷ []);
}

change_goes_on : dispatch mac (5 ∷ []) change ≡ passes (some (1 ∷ 9 ∷ [])) none
unfolding dispatch
change_goes_on = refl

dispatch-proves_example :
    (cookie : Bytes) × (change.csrf_token ≡ some cookie)
    × (submitted change ≡ some cookie)
    × (is_filled (some cookie) ≡ true)
    × ((s : Bytes) → change.session ≡ some s → is_filled (some s) ≡ true → cookie ≡ mac s)
unfolding is_exempt
dispatch-proves_example = dispatch-proves mac (5 ∷ []) change refl refl change_goes_on

dispatch-roundtrip_example :
    (cookie_after page.csrf_token (dispatch mac (5 ∷ []) page) ≡ some (1 ∷ 9 ∷ []))
    × (dispatch mac (5 ∷ []) change ≡ passes (some (1 ∷ 9 ∷ [])) none)
unfolding dispatch
dispatch-roundtrip_example =
    dispatch-roundtrip mac (5 ∷ []) page change (9 ∷ []) refl refl refl refl refl refl refl refl
      refl refl

logout_is_not_exempt : is_exempt logout_path ≡ false
unfolding is_exempt
logout_is_not_exempt = refl

other_token_refused :
    dispatch mac (5 ∷ []) (record change { header_token = some (2 ∷ []) }) ≡ rejected
unfolding dispatch
other_token_refused = refl
