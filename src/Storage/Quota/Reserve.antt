-- ===== src/Storage/Quota/Reserve.antt =====
-- The contract of `reserve` of app/storage/quota.py: the totals, the limits, the row of the key, and
-- the other owners.
use picture_stage.Base.{
  ℕ, ◌+◌, ◌≤◌, max, ◌≡◌, refl, ◌≢◌, inl, inr, none, some, List, [], ◌∷◌, arith, Option-cases,
}
use picture_stage.Base.Int.{pos, negsuc, ℤ}
use picture_stage.Base.Results.{ok}
use picture_stage.Storage.Quota.{
  Settings, Allocation, Tables, reserve, reserve_size, usage_of, set_usage, find_allocation,
  grow_allocation, known_size,
}
use picture_stage.Storage.Quota.Balance.{
  IsBalanced, known-grow_allocation, count-grow_allocation, unknown-grow_allocation,
}

module _ (s : Settings) (owner gallery image key size : ℕ) (t : Tables) {t' : Tables} where
  new_row :
      find_allocation key t.allocations ≡ none
      → IsBalanced t
      → reserve_size s owner gallery image key size t ≡ ok t'
      → IsBalanced t'
  unfolding reserve_size
  new_row fresh b e o = ground (arith, b o, b owner)

  grown_row :
      (p : Allocation)
      → find_allocation key t.allocations ≡ some p
      → IsBalanced t
      → reserve_size s owner gallery image key size t ≡ ok t'
      → IsBalanced t'
  unfolding reserve_size
  grown_row p found b e o = ground (
    arith,
    b o,
    b owner,
    known-grow_allocation o key size p t.allocations,
    count-grow_allocation o key size t.allocations,
    unknown-grow_allocation o key size p t.allocations,
  )

-- A reservation that succeeds keeps every owner's totals equal to the sums over the owner's rows.
pub reserve-IsBalanced :
    (s : Settings) (owner gallery image key : ℕ) (size : ℤ) (t : Tables) {t' : Tables}
    → IsBalanced t
    → reserve s owner gallery image key size t ≡ ok t'
    → IsBalanced t'
unfolding reserve
reserve-IsBalanced s owner gallery image key (negsuc _) t b e = cc
reserve-IsBalanced s owner gallery image key (pos size) t b e =
    elim (Option-cases (find_allocation key t.allocations)) [
      | inl fresh ↦ new_row s owner gallery image key size t fresh b e
      | inr (p, found) ↦ grown_row s owner gallery image key size t p found b e
    ]

find-grow_allocation :
    (k n : ℕ) (p : Allocation) (rows : List Allocation)
    → find_allocation k rows ≡ some p
    → find_allocation k (grow_allocation k n rows)
      ≡ some (record p { size = some (max (known_size p) n) })
unfolding find_allocation grow_allocation
find-grow_allocation k n p [] h = cc
find-grow_allocation k n p (a ∷ rows) h = ground (arith, find-grow_allocation k n p rows)

module _ (s : Settings) (owner gallery image key size : ℕ) (t : Tables) {t' : Tables}
    (e : reserve s owner gallery image key (pos size) t ≡ ok t') where
  recorded :
      (a : Allocation) × (find_allocation key t'.allocations ≡ some a)
      × (a.owner_id ≡ owner)
      × (size ≤ known_size a)
  unfolding reserve find_allocation
  recorded = elim (Option-cases (find_allocation key t.allocations)) [
    | inl fresh ↦ (
      record {
        key = key;
        owner_id = owner;
        gallery_id = gallery;
        image_id = image;
        size = some size;
      },
      ground arith,
      refl,
      ground arith,
    )
    | inr (p, found) ↦ (
      record p { size = some (max (known_size p) size) },
      ground (arith, find-grow_allocation key size p t.allocations),
      ground arith,
      ground arith,
    )
  ]

-- What a successful reservation of `size` bytes leaves behind.
pub record IsReserved (s : Settings) (owner key size : ℕ) (t t' : Tables) : Type 0 where
  pub bytes_capped : (usage_of t' owner).bytes ≤ s.max_storage_bytes_per_owner
  pub objects_capped : (usage_of t' owner).objects ≤ s.max_storage_objects_per_owner
  pub sizes_known : (usage_of t' owner).unknown_sizes ≡ 0
  pub never_refunds : (usage_of t owner).bytes ≤ (usage_of t' owner).bytes
  pub row :
      (a : Allocation) × (find_allocation key t'.allocations ≡ some a)
      × (a.owner_id ≡ owner)
      × (size ≤ known_size a)
  pub others_kept : (o : ℕ) → o ≢ owner → t'.usage o ≡ t.usage o

-- A successful reservation leaves the owner within both limits and without unknown sizes, with a
-- row of the key that is the owner's and covers the size; no other owner's totals have moved.
pub reserve-IsReserved :
    (s : Settings) (owner gallery image key size : ℕ) (t : Tables) {t' : Tables}
    → reserve s owner gallery image key (pos size) t ≡ ok t'
    → IsReserved s owner key size t t'
unfolding reserve find_allocation
reserve-IsReserved s owner gallery image key size t e = record {
  bytes_capped = ground arith;
  objects_capped = ground arith;
  sizes_known = ground arith;
  never_refunds = ground arith;
  row = recorded s owner gallery image key size t e;
  others_kept = λ o ne. ground arith;
}

-- A key without a row, whose size and count fit the limits of an owner without unknown sizes, is
-- admitted, and the owner is charged its size and one object.
pub reserve_new :
    (s : Settings) (owner gallery image key size : ℕ) (t : Tables)
    → find_allocation key t.allocations ≡ none
    → (usage_of t owner).unknown_sizes ≡ 0
    → (usage_of t owner).bytes + size ≤ s.max_storage_bytes_per_owner
    → (usage_of t owner).objects + 1 ≤ s.max_storage_objects_per_owner
    → (t' : Tables) × (reserve s owner gallery image key (pos size) t ≡ ok t')
      × ((usage_of t' owner).bytes ≡ (usage_of t owner).bytes + size)
      × ((usage_of t' owner).objects ≡ (usage_of t owner).objects + 1)
unfolding reserve
reserve_new s owner gallery image key size t fresh known bytes objects = (
  record {
    usage =
        set_usage owner
          (record (usage_of t owner) {
            bytes = (usage_of t owner).bytes + size;
            objects = (usage_of t owner).objects + 1;
          })
          t.usage;
    allocations =
        record {
          key = key;
          owner_id = owner;
          gallery_id = gallery;
          image_id = image;
          size = some size;
        }
        ∷ t.allocations;
  },
  ground arith,
  ground arith,
  ground arith,
)

-- A successful reservation of a key that has a row, at a size that row already charges, leaves
-- the totals of every owner as they are.
pub reserve_retry :
    (s : Settings) (owner gallery image key size : ℕ) (t : Tables) {t' : Tables} (p : Allocation)
    → find_allocation key t.allocations ≡ some p
    → size ≤ known_size p
    → reserve s owner gallery image key (pos size) t ≡ ok t'
    → (o : ℕ) → usage_of t' o ≡ usage_of t o
unfolding reserve
reserve_retry s owner gallery image key size t p found small e o = ground arith
