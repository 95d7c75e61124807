-- ===== src/Examples.antt =====
-- Rows that several modules of tests share: an owner, a gallery that is shared with a token, an
-- image, a session, and a stand-in for the hash functions that keeps its input.
use picture_stage.Base.{ℕ, ◌+◌, ◌*◌, arith, none, some, [], ◌∷◌, bytes_eq, bytes_eq_refl}
use picture_stage.Models.{
  admin, PendingSignup, PreviewVariant, thumb_sm, thumb_md, preview, Crypto, User, active, Gallery,
  shared, ShareSession, Image, SelectionEvent, select, Database,
}
use picture_stage.Storage.Quota.{Tables, set_usage}
use picture_stage.Storage.Quota.Balance.{IsBalanced}
use picture_stage.Accounts.Auth.{TokenData}

abbrev pub plain : Crypto
plain = record {
  sha256 = λ s. s;
  checkpw = bytes_eq;
  hashpw = λ s. s;
  checkpw-hashpw = bytes_eq_refl;
}

abbrev pub owner : User
owner = record {
  id = 1;
  email = 64 ∷ [];
  password_hash = 1 ∷ [];
  status = active;
  email_verified_at = some 0;
  tokens_valid_after = none;
  gallery_limit_override = none;
}

abbrev pub open_gallery : Gallery
open_gallery = record {
  id = 5;
  owner_id = 1;
  status = shared;
  share_token_hash = some (7 ∷ 8 ∷ []);
  share_token_salt = some (8 ∷ []);
  share_token = some (7 ∷ []);
  share_token_lookup = some (7 ∷ []);
  password_hash = some (9 ∷ []);
  expires_at = none;
  authorization_epoch = 1;
}

abbrev pub picture : Image
picture = record {
  id = 70;
  gallery_id = 5;
  sort_order = 0;
  filename = record { place = 3; text = 61 ∷ 49 ∷ [] };
  capture_sort_key = 100;
  storage_key = 700;
  previews = 701 ∷ [];
}

abbrev pub visit : ShareSession
visit = record {
  id = 30;
  gallery_id = 5;
  authorization_epoch = 1;
  completed_at = none;
  expires_at = some 1000;
}

abbrev pub database : Database
database = record {
  pending_signups = [];
  revoked_tokens = [];
  users = owner ∷ [];
  galleries = open_gallery ∷ [];
  images = picture ∷ [];
  upload_cleanup_intents = [];
  share_sessions = visit ∷ [];
  checkpoints = λ _. none;
  selection_events = [];
  current_selections = λ _. none;
  audit_log = [];
  next_event_id = 1;
}

abbrev pub selected_event : SelectionEvent
selected_event = record {
  id = 1;
  image_id = 70;
  share_session_id = 30;
  action = select;
  comment = none;
  created_at = 500;
}

abbrev pub administrator : User
administrator = record owner { id = 2; email = 65 ∷ []; status = admin }

abbrev pub waiting : PendingSignup
waiting = record {
  id = 9;
  email = 66 ∷ [];
  password_hash = 3 ∷ [];
  email_verified_at = none;
  verification_token_hash = 7 ∷ 8 ∷ [];
  verification_token_salt = 8 ∷ [];
  verification_lookup_id = none;
}

-- The same gallery on a server with an administrator and a waiting signup.
abbrev pub staffed : Database
staffed = record database { users = administrator ∷ owner ∷ []; pending_signups = waiting ∷ [] }

-- The claims of a token of a user.
abbrev pub token_of : ℕ → TokenData
token_of user = record {
  user_id = some user;
  issued_at = 500;
  expires_at = 900;
  fingerprint = 40 + user;
}

-- The charge of the picture.
abbrev pub charged : Tables
charged = record {
  usage = set_usage 1 (record { bytes = 30; objects = 1; unknown_sizes = 0 }) (λ _. none);
  allocations =
      record { key = 700; owner_id = 1; gallery_id = 5; image_id = 70; size = some 30 } ∷ [];
}

pub charged-IsBalanced : IsBalanced charged
charged-IsBalanced o = ground arith

-- A number for each preview key.
abbrev pub preview_key : ℕ → ℕ → PreviewVariant → ℕ
preview_key gallery image thumb_sm = image * 10 + 1
preview_key gallery image thumb_md = image * 10 + 2
preview_key gallery image preview = image * 10 + 3
