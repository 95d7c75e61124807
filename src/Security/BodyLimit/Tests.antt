-- ===== src/Security/BodyLimit/Tests.antt =====
-- A limit of 100 bytes at work.
use picture_stage.Base.{◌≤◌, ◌≡◌, refl, true, none, some, List, [], ◌∷◌}
use picture_stage.Security.BodyLimit.{
  request, start, body, Call, receives, sends, limited_call, max_bytes, Settings,
}
use picture_stage.Security.BodyLimit.Bounded.{total, limited_call-total}

-- Reads a body of 120 bytes in two parts, and answers 400 when it breaks off.
abbrev too_much : List Call
too_much = receives (request 60) ∷ receives (request 60) ∷ sends (start 400) ∷ sends body ∷ []

too_much_is_refused : (limited_call 100 none too_much).sent ≡ body ∷ start 413 ∷ []
unfolding limited_call
too_much_is_refused = refl

limited_call-total_example : total (limited_call 100 none too_much).delivered ≤ 100
limited_call-total_example = limited_call-total 100 none too_much

abbrev fitting : List Call
fitting = receives (request 60) ∷ receives (request 40) ∷ sends (start 200) ∷ sends body ∷ []

abbrev settings : Settings
settings = record {
  max_request_body_mb = 1024;
  max_non_upload_request_body_kb = 1024;
  max_selection_comment_chars = 2000;
}

-- A write of a selection through the link `x`.
selection_limit :
    max_bytes settings
      (λ _. true)
      (record {
        is_post = true;
        parts =
            []
            ∷ (103 ∷ [])
            ∷ (120 ∷ [])
            ∷ (115 ∷ 101 ∷ 108 ∷ 101 ∷ 99 ∷ 116 ∷ 105 ∷ 111 ∷ 110 ∷ 115 ∷ [])
            ∷ [];
      })
    ≡ some 65536
unfolding max_bytes
selection_limit = refl
