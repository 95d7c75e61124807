-- ===== src/Images/Upload.antt =====
-- app/images/upload_batch.py with the keys of app/images/storage_cleanup.py, and the limits of
-- app/images/upload_limits.py. A batch is followed in the durable state that it touches: the intent
-- row, the committed images and the objects in the storage, of which only the batch's own keys
-- matter. What the database and the storage answer is an outcome that each step takes; a process may
-- also stop between any two steps.
pub mod Owned
pub mod Steps
mod Tests
use picture_stage.Base.{
  ℕ, ◌+◌, ◌*◌, ◌≡◌, Bool, true, false, not, ◌&&◌, ◌||◌, Option, none, some, List, [], ◌∷◌, Bytes,
  filter, any, all, contains, concat_map, length, take, ltb, suc, ◌==◌, if◌then◌else◌,
}
use picture_stage.Base.Results.{Result, ok, err, raise_if, ◌>>=◌, ◌>>◌}
use picture_stage.Models.{PreviewVariant}
use picture_stage.Gallery.Removal.{canonical_preview_keys}

pub data ContentType : Type 0 where
  jpeg png webp other_type : ContentType

-- The HTTP errors 413 and 422.
pub data Error : Type 0 where
  too_many_files file_too_large unsupported_type : Error

-- `enforce_file_count`; zero is no limit.
unfoldable pub enforce_file_count : ℕ → ℕ → Result Error (Unit {0})
enforce_file_count max_files count =
    raise_if (not (max_files == 0) && ltb max_files count) too_many_files

-- `read_within_limit`, from the bytes that the stream holds.
unfoldable pub read_within_limit : ℕ → Bytes → Result Error Bytes
read_within_limit max_mb stream =
    let max_bytes = max_mb * 1024 * 1024 in
    let bytes = take (suc max_bytes) stream in
    if max_mb == 0
    then ok stream
    else if ltb max_bytes (length bytes)
    then err file_too_large
    else ok bytes

pub record UploadPlan : Type 0 where
  pub image_id : ℕ
  pub original_key : ℕ
  pub keys : List ℕ

abbrev pub is_supported : ContentType → Bool
is_supported other_type = false
is_supported _ = true

-- `UploadPlan.for_file`, with the drawn id; `storage_key` is given as in `Gallery.Removal`.
unfoldable pub for_file :
    (ℕ → ℕ → PreviewVariant → ℕ)
    → (ℕ → ℕ → ContentType → ℕ)
    → ℕ
    → ℕ
    → ContentType
    → Bool
    → Result Error UploadPlan
for_file storage_key original_key gallery image type previews = do
  raise_if (not (is_supported type)) unsupported_type
  ok (record {
    image_id = image;
    original_key = original_key gallery image type;
    keys =
        original_key gallery image type
        ∷ (if previews then canonical_preview_keys storage_key gallery image else []);
  })

pub data Phase : Type 0 where
  running committed failing closed : Phase

pub record Batch : Type 0 where
  pub plans : List UploadPlan
  pub attempted_keys : List ℕ
  -- The images that the open transaction has added.
  pub added : List ℕ
  -- What is durable.
  pub intent : Bool
  pub images : List ℕ
  pub stored : ℕ → Bool
  pub phase : Phase

abbrev pub owned_keys : List UploadPlan → List ℕ
owned_keys plans = concat_map (λ p. p.keys) plans

-- `__aenter__`: the intent is committed before any write.
unfoldable pub enter : List UploadPlan → Batch
enter plans = record {
  plans = plans;
  attempted_keys = [];
  added = [];
  intent = true;
  images = [];
  stored = λ _. false;
  phase = running;
}

-- How `storage.quota.upload` ends: the reservation is refused, the object is written, or the write
-- raises, with or without the object in place.
pub data Write : Type 0 where
  refused written : Write
  broken : Bool → Write

abbrev pub store : ℕ → Bool → (ℕ → Bool) → ℕ → Bool
store key there stored k = if k == key then stored k || there else stored k

abbrev pub write_outcome : ℕ → Write → Batch → Batch
write_outcome key refused b = record b { phase = failing }
write_outcome key written b = record b { stored = store key true b.stored }
write_outcome key (broken there) b = record b { stored = store key there b.stored; phase = failing }

-- `UploadBatch.upload`: the key is registered before the write.
unfoldable pub upload : ℕ → Write → Batch → Batch
upload key outcome b =
    if contains key (owned_keys b.plans)
    then write_outcome key outcome (record b { attempted_keys = key ∷ b.attempted_keys })
    else record b { phase = failing }

-- `db.add(image)`
unfoldable pub add_image : ℕ → Batch → Batch
add_image image b = record b { added = image ∷ b.added }

-- How `db.commit` ends: it is acknowledged, it took place but its acknowledgement is lost, or it is
-- rolled back.
pub data Commit : Type 0 where
  acknowledged lost rolled_back : Commit

unfoldable pub commit : Commit → Batch → Batch
commit acknowledged b = record b { intent = false; images = b.added; phase = committed }
commit lost b = record b { intent = false; images = b.added; phase = failing }
commit rolled_back b = record b { phase = failing }

-- The attempted keys of the images that were not committed.
unfoldable pub removable_keys : Batch → List ℕ
removable_keys b =
    filter (λ k. contains k b.attempted_keys)
      (owned_keys (filter (λ p. not (contains p.image_id b.images)) b.plans))

-- How the recovery ends: the database cannot be read, or the keys were deleted, but for those whose
-- deletion fails; then the removal of the intent is committed or not.
pub data Recovery : Type 0 where
  unreadable : Recovery
  deleted : (ℕ → Bool) → Bool → Recovery

-- `_recover`
unfoldable pub recover : Recovery → Batch → Batch
recover unreadable b = record b { phase = closed }
recover (deleted fails finished) b = record b {
  stored = λ k. b.stored k && not (contains k (removable_keys b) && not (fails k));
  intent = if any fails (removable_keys b) then b.intent else not finished && b.intent;
  phase = closed;
}

-- The steps of `upload_images`: it adds an image for each plan before it commits.
pub data Step (b : Batch) : Batch → Type 0 where
  uploads : (key : ℕ) (outcome : Write) → b.phase ≡ running → Step b (upload key outcome b)
  adds : (image : ℕ) → b.phase ≡ running → Step b (add_image image b)
  raises : b.phase ≡ running → Step b (record b { phase = failing })
  commits :
      (outcome : Commit)
      → b.phase ≡ running
      → all (λ p. contains p.image_id b.added) b.plans ≡ true
      → Step b (commit outcome b)
  recovers : (outcome : Recovery) → b.phase ≡ failing → Step b (recover outcome b)
  stops : Step b (record b { phase = closed })

pub data Reachable (start : Batch) : Batch → Type 0 where
  here : Reachable start start
  after : {b c : Batch} → Reachable start b → Step b c → Reachable start c
