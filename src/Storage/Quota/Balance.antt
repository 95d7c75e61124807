-- ===== src/Storage/Quota/Balance.antt =====
-- The invariant of the accounting of app/storage/quota.py: an owner's totals are the sums over
-- the owner's rows. With it, how the sums move under each write to the allocation table.
use picture_stage.Base.{
  ℕ, ◌+◌, max, ◌≡◌, refl, Bool, false, not, ◌&&◌, some, List, [], ◌∷◌, filter, sum_where,
  count_where, sum_where-filter, ◌==◌, if◌then◌else◌, arith, is_none,
}
use picture_stage.Storage.Quota.{
  Allocation, Tables, Usage, usage_of, known_size, unknown_size, find_allocation, grow_allocation,
  is_released,
}

abbrev pub owned_by : ℕ → Allocation → Bool
owned_by o a = a.owner_id == o

-- One owner's totals are what the owner's rows add up to.
pub record IsCharged (u : Usage) (o : ℕ) (rows : List Allocation) : Type 0 where
  pub bytes_sum : u.bytes ≡ sum_where (owned_by o) known_size rows
  pub objects_sum : u.objects ≡ count_where (owned_by o) rows
  pub unknown_sum : u.unknown_sizes ≡ sum_where (owned_by o) unknown_size rows

abbrev pub IsBalanced : Tables → Type 0
IsBalanced t = (o : ℕ) → IsCharged (usage_of t o) o t.allocations

-- An allocation that grows moves its owner's bytes by the growth.
pub known-grow_allocation :
    (o k n : ℕ) (p : Allocation) (rows : List Allocation)
    → find_allocation k rows ≡ some p
    → sum_where (owned_by o) known_size (grow_allocation k n rows)
        + (if owned_by o p then known_size p else 0)
      ≡ sum_where (owned_by o) known_size rows + (if owned_by o p then max (known_size p) n else 0)
unfolding find_allocation grow_allocation
known-grow_allocation o k n p [] h = ground arith
known-grow_allocation o k n p (a ∷ rows) h = ground (arith, known-grow_allocation o k n p rows)

pub count-grow_allocation :
    (o k n : ℕ) (rows : List Allocation)
    → count_where (owned_by o) (grow_allocation k n rows) ≡ count_where (owned_by o) rows
unfolding grow_allocation
count-grow_allocation o k n [] = refl
count-grow_allocation o k n (a ∷ rows) = ground (arith, count-grow_allocation o k n rows)

-- A row of known size stays one.
pub unknown-grow_allocation :
    (o k n : ℕ) (p : Allocation) (rows : List Allocation)
    → find_allocation k rows ≡ some p
    → is_none p.size ≡ false
    → sum_where (owned_by o) unknown_size (grow_allocation k n rows)
      ≡ sum_where (owned_by o) unknown_size rows
unfolding find_allocation grow_allocation
unknown-grow_allocation o k n p [] h e = ground arith
unknown-grow_allocation o k n p (a ∷ rows) h e =
    ground (arith, unknown-grow_allocation o k n p rows)

-- The rows of one owner, seen by the sums of another, do not matter.
pub sum_where-is_released :
    (keys : List ℕ) (owner o : ℕ) (f : Allocation → ℕ) (rows : List Allocation)
    → sum_where (λ a. owned_by o a && is_released keys owner a) f rows
      ≡ (if o == owner then sum_where (is_released keys owner) f rows else 0)
sum_where-is_released keys owner o f [] = ground arith
sum_where-is_released keys owner o f (a ∷ rows) =
    ground (arith, sum_where-is_released keys owner o f rows)

-- A sum over an owner's rows before a round of `release`, split by what the round deletes.
pub sum-release :
    (keys : List ℕ) (owner o : ℕ) (f : Allocation → ℕ) (rows : List Allocation)
    → sum_where (owned_by o) f (filter (λ a. not (is_released keys owner a)) rows)
        + (if o == owner then sum_where (is_released keys owner) f rows else 0)
      ≡ sum_where (owned_by o) f rows
sum-release keys owner o f rows =
    rw (← sum_where-is_released keys owner o f rows)
      (sum_where-filter (owned_by o) (is_released keys owner) f rows)
