-- ===== src/Models.antt =====
-- app/db/models.py: the rows that the modelled code reads and writes. Identifiers are UUIDs or
-- integers, which are only compared and ordered, so they are numbers. A time is a number of
-- microseconds. Columns that no modelled operation reads (names, locales, client addresses,
-- creation times of galleries) are left out.
use picture_stage.Base.{ℕ, ◌≡◌, Bool, true, false, Option, List, Bytes, ◌==◌}
use picture_stage.Base.Int.{ℤ}

pub data UserStatus : Type 0 where
  pending active admin disabled : UserStatus

-- `LOGIN_ALLOWED_STATUSES`
abbrev pub is_login_allowed : UserStatus → Bool
is_login_allowed pending = false
is_login_allowed active = true
is_login_allowed admin = true
is_login_allowed disabled = false

abbrev pub is_admin : UserStatus → Bool
is_admin admin = true
is_admin _ = false

pub data GalleryStatus : Type 0 where
  draft shared completed archived : GalleryStatus

-- The two statuses that a guest may reach.
abbrev pub is_reachable : GalleryStatus → Bool
is_reachable draft = false
is_reachable shared = true
is_reachable completed = true
is_reachable archived = false

abbrev pub is_completed : GalleryStatus → Bool
is_completed completed = true
is_completed _ = false

-- `ALLOWED_TRANSITIONS`
abbrev pub allowed_transition : GalleryStatus → GalleryStatus → Bool
allowed_transition draft shared = true
allowed_transition shared completed = true
allowed_transition completed archived = true
allowed_transition completed shared = true
allowed_transition archived shared = true
allowed_transition _ _ = false

pub data SelectionAction : Type 0 where
  select deselect favorite unfavorite comment : SelectionAction

pub record User : Type 0 where
  pub id : ℕ
  pub email : Bytes
  pub password_hash : Bytes
  pub status : UserStatus
  pub email_verified_at : Option ℕ
  pub tokens_valid_after : Option ℕ
  pub gallery_limit_override : Option ℤ

-- A time read from the database: most carry a time zone and denote an instant; PostgreSQL's
-- infinities and legacy values come back without one and are read as UTC.
pub data DateTime : Type 0 where
  aware naive : ℕ → DateTime

pub record Gallery : Type 0 where
  pub id : ℕ
  pub owner_id : ℕ
  pub status : GalleryStatus
  pub share_token_hash : Option Bytes
  pub share_token_salt : Option Bytes
  pub share_token : Option Bytes
  pub share_token_lookup : Option Bytes
  pub password_hash : Option Bytes
  pub expires_at : Option DateTime
  pub authorization_epoch : ℕ

pub record ShareSession : Type 0 where
  pub id : ℕ
  pub gallery_id : ℕ
  pub authorization_epoch : ℕ
  pub completed_at : Option ℕ
  pub expires_at : Option ℕ

-- A file name, with its place in the order of the database's collation.
pub record Filename : Type 0 where
  pub place : ℕ
  pub text : Bytes

-- `capture_sort_key` is a number of seconds.
pub record Image : Type 0 where
  pub id : ℕ
  pub gallery_id : ℕ
  pub sort_order : ℕ
  pub filename : Filename
  pub capture_sort_key : ℕ
  pub storage_key : ℕ
  -- The keys of its `ImagePreview` rows.
  pub previews : List ℕ

-- `UploadCleanupIntent`: the keys of a batch, by image.
pub record UploadCleanupIntent : Type 0 where
  pub gallery_id : ℕ
  pub image_keys : List (List ℕ)

pub data PreviewVariant : Type 0 where
  thumb_sm thumb_md preview : PreviewVariant

pub record SelectionEvent : Type 0 where
  pub id : ℕ
  pub image_id : ℕ
  pub share_session_id : ℕ
  pub action : SelectionAction
  pub comment : Option Bytes
  pub created_at : ℕ

-- The state of one dimension of `CurrentSelection` with the version that wrote it: its
-- `…_at` and `…_event_id`.
pub record Versioned (V : Type 0) : Type 0 where
  pub value : V
  pub version : Option (ℕ × ℕ)

pub record CurrentSelection : Type 0 where
  pub selected : Versioned Bool
  pub favorited : Versioned Bool
  pub comment : Versioned (Option Bytes)

pub record AuditLog : Type 0 where
  pub gallery_id : Option ℕ
  pub actor_user_id : Option ℕ
  pub actor_session_id : Option ℕ

-- `ShareSessionCleanupState`: the last key of the previous window.
pub record Checkpoint : Type 0 where
  pub last_expires_at : ℕ
  pub last_session_id : ℕ

-- A signup that waits for its approval. A spent verification hash is the empty string.
pub record PendingSignup : Type 0 where
  pub id : ℕ
  pub email : Bytes
  pub password_hash : Bytes
  pub email_verified_at : Option ℕ
  pub verification_token_hash : Bytes
  pub verification_token_salt : Bytes
  pub verification_lookup_id : Option ℕ

-- A token that was logged out. The fingerprint is the hexadecimal SHA-256 digest, as a number.
pub record RevokedToken : Type 0 where
  pub fingerprint : ℕ
  pub expires_at : ℕ

pub record Database : Type 0 where
  pub pending_signups : List PendingSignup
  pub revoked_tokens : List RevokedToken
  pub users : List User
  pub galleries : List Gallery
  pub images : List Image
  pub upload_cleanup_intents : List UploadCleanupIntent
  pub share_sessions : List ShareSession
  pub checkpoints : ℕ → Option Checkpoint
  pub selection_events : List SelectionEvent
  pub current_selections : ℕ → Option CurrentSelection
  pub audit_log : List AuditLog
  pub next_event_id : ℕ

-- `row.id == i` and `row.gallery_id == i`, as the queries test them.
abbrev pub gallery_is : ℕ → Gallery → Bool
gallery_is i g = g.id == i

abbrev pub user_is : ℕ → User → Bool
user_is i u = u.id == i

-- What the code takes from hashlib and bcrypt.
pub record Crypto : Type 0 where
  pub sha256 : Bytes → Bytes
  pub checkpw : Bytes → Bytes → Bool
  pub hashpw : Bytes → Bytes
  -- bcrypt accepts a password against its own hash.
  pub checkpw-hashpw : (password : Bytes) → checkpw password (hashpw password) ≡ true
