-- ===== src/Security/BodyLimit.antt =====
-- `RequestBodySizeLimitMiddleware` of app/security/middleware.py. A path is given by its parts,
-- after the root path and trailing slashes are taken off, and `is_uuid` says what `uuid.UUID`
-- accepts. What the inner application does is a list of calls of the two functions it is given.
pub mod Bounded
mod Tests
use picture_stage.Base.{
  ℕ, ◌+◌, ◌*◌, max, min, Bool, true, false, not, ◌&&◌, ◌||◌, Option, none, some, List, [], ◌∷◌,
  Bytes, bytes_eq, ltb, ◌==◌, if◌then◌else◌, is_empty,
}
use picture_stage.Base.Int.{ℤ, pos, ltb_ℤ}

pub record Settings : Type 0 where
  pub max_request_body_mb : ℕ
  pub max_non_upload_request_body_kb : ℕ
  pub max_selection_comment_chars : ℕ

pub record Scope : Type 0 where
  pub is_post : Bool
  pub parts : List Bytes

-- The constant parts of the routes, as character codes.
abbrev galleries_part : Bytes
galleries_part = 103 ∷ 97 ∷ 108 ∷ 108 ∷ 101 ∷ 114 ∷ 105 ∷ 101 ∷ 115 ∷ []

abbrev upload_part : Bytes
upload_part = 117 ∷ 112 ∷ 108 ∷ 111 ∷ 97 ∷ 100 ∷ []

abbrev api_part : Bytes
api_part = 97 ∷ 112 ∷ 105 ∷ []

abbrev v1_part : Bytes
v1_part = 118 ∷ 49 ∷ []

abbrev images_part : Bytes
images_part = 105 ∷ 109 ∷ 97 ∷ 103 ∷ 101 ∷ 115 ∷ []

abbrev g_part : Bytes
g_part = 103 ∷ []

abbrev selections_part : Bytes
selections_part = 115 ∷ 101 ∷ 108 ∷ 101 ∷ 99 ∷ 116 ∷ 105 ∷ 111 ∷ 110 ∷ 115 ∷ []

abbrev is_upload_route : (Bytes → Bool) → List Bytes → Bool
is_upload_route is_uuid (_ ∷ a ∷ gallery ∷ b ∷ []) =
    bytes_eq a galleries_part && bytes_eq b upload_part && is_uuid gallery
is_upload_route is_uuid (_ ∷ a ∷ b ∷ c ∷ gallery ∷ d ∷ []) =
    bytes_eq a api_part
    && bytes_eq b v1_part
    && bytes_eq c galleries_part
    && bytes_eq d images_part
    && is_uuid gallery
is_upload_route is_uuid _ = false

unfoldable pub is_image_upload : (Bytes → Bool) → Scope → Bool
is_image_upload is_uuid scope = scope.is_post && is_upload_route is_uuid scope.parts

abbrev is_selection_route : List Bytes → Bool
is_selection_route (_ ∷ a ∷ token ∷ b ∷ []) =
    bytes_eq a g_part && not (is_empty token) && bytes_eq b selections_part
is_selection_route _ = false

unfoldable pub is_selection_write : Scope → Bool
is_selection_write scope = scope.is_post && is_selection_route scope.parts

-- `min(limits)`, of the limits that are enabled.
abbrev min_option : Option ℕ → Option ℕ → Option ℕ
min_option none b = b
min_option (some a) none = some a
min_option (some a) (some b) = some (min a b)

abbrev limit_if : Bool → ℕ → Option ℕ
limit_if enabled n = if enabled then some n else none

-- The effective limit; `none` is no limit. A setting of zero disables its limit.
unfoldable pub max_bytes : Settings → (Bytes → Bool) → Scope → Option ℕ
unfolding is_image_upload is_selection_write
max_bytes s is_uuid scope =
    min_option (limit_if (not (s.max_request_body_mb == 0)) (s.max_request_body_mb * 1048576)) (
      min_option
        (limit_if
          (not (s.max_non_upload_request_body_kb == 0) && not (is_image_upload is_uuid scope))
          (s.max_non_upload_request_body_kb * 1024))
        (limit_if (is_selection_write scope)
          (max 65536 (s.max_selection_comment_chars * 12 + 4096))))

-- What the server hands over: a part of the body, by its length, or the end of the connection.
pub data Received : Type 0 where
  request : ℕ → Received
  disconnect : Received

-- What is sent: the start of a response, with its status, or a part of its body.
pub data Sent : Type 0 where
  start : ℕ → Sent
  body : Sent

abbrev pub is_start : Sent → Bool
is_start (start _) = true
is_start body = false

-- The variables of `__call__`, and what has passed in both directions, the latest first.
pub record State : Type 0 where
  pub received : ℕ
  pub response_started : Bool
  pub limit_hit : Bool
  pub rejected : Bool
  pub sent : List Sent
  pub delivered : List Received

abbrev pub initial : State
initial = record {
  received = 0;
  response_started = false;
  limit_hit = false;
  rejected = false;
  sent = [];
  delivered = [];
}

-- `_send_413`
abbrev pub send_413 : List Sent → List Sent
send_413 sent = body ∷ start 413 ∷ sent

unfoldable pub guarded_send : Sent → State → State
guarded_send m s =
    if s.rejected
    then s
    else record s { response_started = is_start m || s.response_started; sent = m ∷ s.sent }

abbrev pub deliver : Received → State → State
deliver m s = record s { delivered = m ∷ s.delivered }

-- The limit is breached: a response that has started is left alone.
abbrev pub breach : ℕ → State → State
breach n s = record s {
  received = s.received + n;
  limit_hit = true;
  rejected = not s.response_started || s.rejected;
  sent = if s.response_started then s.sent else send_413 s.sent;
  delivered = disconnect ∷ s.delivered;
}

-- One call of `limited_receive`, with the message that the server has next.
unfoldable pub limited_receive : ℕ → Received → State → State
limited_receive limit disconnect s = deliver disconnect s
limited_receive limit (request n) s =
    if s.limit_hit
    then deliver disconnect s
    else if ltb limit (s.received + n)
    then breach n s
    else deliver (request n) (record s { received = s.received + n })

-- A call of the inner application.
pub data Call : Type 0 where
  receives : Received → Call
  sends : Sent → Call

unfoldable pub serve : ℕ → List Call → State → State
unfolding guarded_send limited_receive
serve limit [] s = s
serve limit (receives m ∷ calls) s = serve limit calls (limited_receive limit m s)
serve limit (sends m ∷ calls) s = serve limit calls (guarded_send m s)

-- The first `Content-Length` header, where it is an integer, exceeds the limit.
abbrev pub is_too_long : ℕ → Option (Option ℤ) → Bool
is_too_long limit (some (some n)) = ltb_ℤ (pos limit) n
is_too_long limit _ = false

-- A request behind a limit: the declared length first, then the counted bytes.
unfoldable pub limited_call : ℕ → Option (Option ℤ) → List Call → State
unfolding serve
limited_call limit content_length calls =
    if is_too_long limit content_length
    then record initial { sent = send_413 [] }
    else serve limit calls initial
