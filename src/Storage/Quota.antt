-- ===== src/Storage/Quota.antt =====
-- app/storage/quota.py: the durable charge of each owner's stored objects. The two tables are
-- `StorageUsage` (a total for each owner) and `StorageAllocation` (a row for each key). Owners,
-- galleries, images and storage keys are only compared and sorted, so they are numbers.
-- `accounting_session` is one transaction: what raises inside it leaves both tables as they were.
pub mod Balance
pub mod Reserve
pub mod Release
mod Tests
use picture_stage.Base.{
  ℕ, ◌+◌, ◌-◌, ◌≤◌, max, Bool, true, false, not, ◌&&◌, ◌||◌, Option, none, some, List, [], ◌∷◌, map,
  filter, all, sum_where, count_where, contains, sorted_set, ◌==◌, leb, if◌then◌else◌, is_none,
}
use picture_stage.Base.Int.{ℤ, pos, negsuc}
use picture_stage.Base.Results.{Result, ok, err, raise_if, ◌>>=◌, ◌>>◌}

pub record Settings : Type 0 where
  pub max_storage_bytes_per_owner : ℕ
  pub max_storage_objects_per_owner : ℕ

-- A row of `storage_usage`, without its primary key.
pub record Usage : Type 0 where
  pub bytes : ℕ
  pub objects : ℕ
  pub unknown_sizes : ℕ

-- A row of `storage_allocations`; `size` is NULL where the stored size is not known.
pub record Allocation : Type 0 where
  pub key : ℕ
  pub owner_id : ℕ
  pub gallery_id : ℕ
  pub image_id : ℕ
  pub size : Option ℕ

pub record Tables : Type 0 where
  pub usage : ℕ → Option Usage
  pub allocations : List Allocation

pub data Error : Type 0 where
  negative_size ownership_mismatch quota_exceeded check_violated : Error

abbrev pub no_usage : Usage
no_usage = record { bytes = 0; objects = 0; unknown_sizes = 0 }

-- The row of an owner, or the server defaults that `insert … on_conflict_do_nothing` would store.
abbrev pub usage_or_default : Option Usage → Usage
usage_or_default none = no_usage
usage_or_default (some u) = u

abbrev pub usage_of : Tables → ℕ → Usage
usage_of t o = usage_or_default (t.usage o)

abbrev pub set_usage : ℕ → Usage → (ℕ → Option Usage) → ℕ → Option Usage
set_usage o u table o' = if o' == o then some u else table o'

-- `accounting.get(StorageAllocation, key)`
unfoldable pub find_allocation : ℕ → List Allocation → Option Allocation
find_allocation k [] = none
find_allocation k (a ∷ rows) =
    let rest = find_allocation k rows in if a.key == k then some a else rest

-- `item.size or 0`
abbrev pub size_or_zero : Option ℕ → ℕ
size_or_zero none = 0
size_or_zero (some n) = n

-- `previous.size = max(previous.size or 0, size)` on the row of a key
unfoldable pub grow_allocation : ℕ → ℕ → List Allocation → List Allocation
grow_allocation k n [] = []
grow_allocation k n (a ∷ rows) =
    let rest = grow_allocation k n rows in
    if a.key == k then record a { size = some (max (size_or_zero a.size) n) } ∷ rows else a ∷ rest

-- The guards on an existing row: whose it is, and that its size is known.
check_previous : ℕ → ℕ → ℕ → Option Allocation → Result Error (Unit {0})
check_previous owner gallery image none = ok tt
check_previous owner gallery image (some p) = do
  raise_if (not (p.owner_id == owner && p.gallery_id == gallery && p.image_id == image))
      ownership_mismatch
  raise_if (is_none p.size) quota_exceeded

extra_bytes : ℕ → Option Allocation → ℕ
extra_bytes size none = size
extra_bytes size (some p) = size - size_or_zero p.size

extra_objects : Option Allocation → ℕ
extra_objects none = 1
extra_objects (some _) = 0

-- The `where` of the conditional UPDATE. Its two limits subtract in SQL's signed integers, so
-- the tests are written as sums.
admits : Settings → Usage → ℕ → ℕ → Bool
admits s u more_bytes more_objects =
    u.unknown_sizes == 0
    && leb (u.bytes + more_bytes) s.max_storage_bytes_per_owner
    && leb (u.objects + more_objects) s.max_storage_objects_per_owner

-- The write to the allocation table at the end of `reserve`.
write_allocation : Allocation → ℕ → Option Allocation → List Allocation → List Allocation
unfolding grow_allocation
write_allocation a size none rows = a ∷ rows
write_allocation a size (some _) rows = grow_allocation a.key size rows

reserve_size : Settings → ℕ → ℕ → ℕ → ℕ → ℕ → Tables → Result Error Tables
unfolding check_previous extra_bytes extra_objects admits write_allocation find_allocation
reserve_size s owner gallery image key size t =
    let previous = find_allocation key t.allocations in
    let u = usage_of t owner in
    let more_bytes = extra_bytes size previous in
    let more_objects = extra_objects previous in
    let charged = record u { bytes = u.bytes + more_bytes; objects = u.objects + more_objects } in
    let row : Allocation = record {
      key = key;
      owner_id = owner;
      gallery_id = gallery;
      image_id = image;
      size = some size;
    } in
    do
      check_previous owner gallery image previous
      raise_if (not (admits s u more_bytes more_objects)) quota_exceeded
      ok (record {
        usage = set_usage owner charged t.usage;
        allocations = write_allocation row size previous t.allocations;
      })

-- `reserve`: charge one object to its owner before its bytes are written.
pub reserve : Settings → ℕ → ℕ → ℕ → ℕ → ℤ → Tables → Result Error Tables
unfolding reserve_size
reserve s owner gallery image key (negsuc _) t = err negative_size
reserve s owner gallery image key (pos size) t = reserve_size s owner gallery image key size t

-- The rows that one round of `release` reads and deletes.
abbrev pub is_released : List ℕ → ℕ → Allocation → Bool
is_released keys owner a = a.owner_id == owner && contains a.key keys

abbrev pub known_size : Allocation → ℕ
known_size a = size_or_zero a.size

abbrev pub unknown_size : Allocation → ℕ
unknown_size a = if is_none a.size then 1 else 0

-- The UPDATE of one owner's totals, under the table's check that no total goes below zero. An
-- owner without a row has nothing to update.
refund : ℕ → ℕ → ℕ → Option Usage → Result Error (Option Usage)
refund bytes objects unknown none = ok none
refund bytes objects unknown (some u) = do
  raise_if (not (leb bytes u.bytes && leb objects u.objects && leb unknown u.unknown_sizes))
      check_violated
  ok (
      some (record {
        bytes = u.bytes - bytes;
        objects = u.objects - objects;
        unknown_sizes = u.unknown_sizes - unknown;
      }))

-- One round of the loop over the owners.
release_owner : List ℕ → ℕ → Tables → Result Error Tables
unfolding refund
release_owner keys owner t = do
  row ←
      refund (sum_where (is_released keys owner) known_size t.allocations)
        (count_where (is_released keys owner) t.allocations)
        (sum_where (is_released keys owner) unknown_size t.allocations) (t.usage owner)
  ok (record {
    usage = λ o. if o == owner then row else t.usage o;
    allocations = filter (λ a. not (is_released keys owner a)) t.allocations;
  })

release_owners : List ℕ → List ℕ → Tables → Result Error Tables
release_owners keys [] t = ok t
release_owners keys (o ∷ owners) t = release_owner keys o t >>= λ t'. release_owners keys owners t'

-- The owners of the rows with one of the keys.
abbrev pub owners_of : List ℕ → List Allocation → List ℕ
owners_of keys rows = map (λ a. a.owner_id) (filter (λ a. contains a.key keys) rows)

release_keys : List ℕ → Tables → Result Error Tables
unfolding release_owners
release_keys [] t = ok t
release_keys (k ∷ keys) t =
    release_owners (k ∷ keys) (sorted_set (owners_of (k ∷ keys) t.allocations)) t

-- `release`: refund the keys whose objects are gone.
unfoldable pub release : List ℕ → Tables → Result Error Tables
unfolding release_keys release_owners release_owner refund
release keys t = release_keys (sorted_set keys) t

abbrev matches : Option ℕ → ℕ → Bool
matches none _ = true
matches (some wanted) n = n == wanted

-- `allocation_keys`: the keys of the rows that every given filter admits.
unfoldable pub allocation_keys : Option ℕ → Option ℕ → Option ℕ → Tables → List ℕ
allocation_keys gallery image owner t = sorted_set (
    map (λ a. a.key)
      (filter
        (λ a. matches gallery a.gallery_id && matches image a.image_id && matches owner a.owner_id)
        t.allocations))
