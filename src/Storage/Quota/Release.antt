-- ===== src/Storage/Quota/Release.antt =====
-- The contract of `release` of app/storage/quota.py: success, the rows that are left, and the
-- totals.
use picture_stage.Base.{
  ℕ, ◌-◌, ◌≡◌, refl, sym, ◌∙◌, ap, inl, inr, true, not, ◌&&◌, none, some, List, [], ◌∷◌, filter,
  sum_where, count_where, contains, sorted_set, contains-sorted_set, ◌==◌, if◌then◌else◌, arith,
  Option-cases,
}
use picture_stage.Base.Results.{ok}
use picture_stage.Storage.Quota.{
  Allocation, Tables, known_size, unknown_size, is_released, release_owner, release_owners,
  release_keys, release, owners_of,
}
use picture_stage.Storage.Quota.Balance.{IsBalanced, sum-release}

abbrev kept_by_owner : List ℕ → ℕ → List Allocation → List Allocation
kept_by_owner keys owner rows = filter (λ a. not (is_released keys owner a)) rows

abbrev kept : List ℕ → List Allocation → List Allocation
kept keys rows = filter (λ a. not (contains a.key keys)) rows

-- One round succeeds on exact totals and leaves exact totals.
release_owner_total :
    (keys : List ℕ) (owner : ℕ) (t : Tables)
    → IsBalanced t
    → (t' : Tables) × (release_owner keys owner t ≡ ok t')
      × (t'.allocations ≡ kept_by_owner keys owner t.allocations)
      × IsBalanced t'
unfolding release_owner
release_owner_total keys owner t b = elim (Option-cases (t.usage owner)) [
  | inl absent ↦ (
    record {
      usage = λ o. if o == owner then none else t.usage o;
      allocations = kept_by_owner keys owner t.allocations;
    },
    ground arith,
    refl,
    λ o. ground (
      arith,
      b o,
      b owner,
      sum-release keys owner o known_size t.allocations,
      sum-release keys owner o (λ _. 1) t.allocations,
      sum-release keys owner o unknown_size t.allocations,
    ),
  )
  | inr (u, there) ↦ (
    record {
      usage = λ o.
          if o == owner
          then some (record {
            bytes = u.bytes - sum_where (is_released keys owner) known_size t.allocations;
            objects = u.objects - count_where (is_released keys owner) t.allocations;
            unknown_sizes =
                u.unknown_sizes - sum_where (is_released keys owner) unknown_size t.allocations;
          })
          else t.usage o;
      allocations = kept_by_owner keys owner t.allocations;
    },
    ground (
      arith,
      b owner,
      sum-release keys owner owner known_size t.allocations,
      sum-release keys owner owner (λ _. 1) t.allocations,
      sum-release keys owner owner unknown_size t.allocations,
    ),
    refl,
    λ o. ground (
      arith,
      b o,
      b owner,
      sum-release keys owner o known_size t.allocations,
      sum-release keys owner o (λ _. 1) t.allocations,
      sum-release keys owner o unknown_size t.allocations,
    ),
  )
]

abbrev kept_by_owners : List ℕ → List ℕ → List Allocation → List Allocation
kept_by_owners keys owners rows =
    filter (λ a. not (contains a.owner_id owners && contains a.key keys)) rows

kept_by_owners-cons :
    (keys owners : List ℕ) (o : ℕ) (rows : List Allocation)
    → kept_by_owners keys owners (kept_by_owner keys o rows) ≡ kept_by_owners keys (o ∷ owners) rows
kept_by_owners-cons keys owners o [] = refl
kept_by_owners-cons keys owners o (a ∷ rows) =
    ground (arith, kept_by_owners-cons keys owners o rows)

kept_by_owners-nil : (keys : List ℕ) (rows : List Allocation) → kept_by_owners keys [] rows ≡ rows
kept_by_owners-nil keys [] = refl
kept_by_owners-nil keys (a ∷ rows) = ground (arith, kept_by_owners-nil keys rows)

kept-nil : (rows : List Allocation) → kept [] rows ≡ rows
kept-nil [] = refl
kept-nil (a ∷ rows) = ground (arith, kept-nil rows)

-- Once every owner of a row with a released key is visited, exactly the released keys are gone.
kept_by_owners-eq-kept :
    (keys owners : List ℕ) (rows : List Allocation)
    → ((o : ℕ) → contains o (owners_of keys rows) ≡ true → contains o owners ≡ true)
    → kept_by_owners keys owners rows ≡ kept keys rows
kept_by_owners-eq-kept keys owners [] h = refl
kept_by_owners-eq-kept keys owners (a ∷ rows) h =
    ground
      (arith, h a.owner_id, kept_by_owners-eq-kept keys owners rows (λ o c. h o (ground arith)))

release_owners_total :
    (keys owners : List ℕ) (t : Tables)
    → IsBalanced t
    → (t' : Tables) × (release_owners keys owners t ≡ ok t')
      × (t'.allocations ≡ kept_by_owners keys owners t.allocations)
      × IsBalanced t'
unfolding release_owners
release_owners_total keys [] t b = (t, refl, sym (kept_by_owners-nil keys t.allocations), b)
release_owners_total keys (o ∷ owners) t b =
    let (t₁, e₁, a₁, b₁) = release_owner_total keys o t b in
    let (t₂, e₂, a₂, b₂) = release_owners_total keys owners t₁ b₁ in
    (
      t₂,
      rw e₁ e₂,
      a₂ ∙ ap (kept_by_owners keys owners) a₁ ∙ kept_by_owners-cons keys owners o t.allocations,
      b₂,
    )

release_keys_total :
    (keys : List ℕ) (t : Tables)
    → IsBalanced t
    → (t' : Tables) × (release_keys keys t ≡ ok t')
      × (t'.allocations ≡ kept keys t.allocations)
      × IsBalanced t'
unfolding release_keys
release_keys_total [] t b = (t, refl, sym (kept-nil t.allocations), b)
release_keys_total (k ∷ keys) t b =
    let owners = owners_of (k ∷ keys) t.allocations in
    let (t', e, a, b') = release_owners_total (k ∷ keys) (sorted_set owners) t b in
    (
      t',
      e,
      a
          ∙ kept_by_owners-eq-kept (k ∷ keys) (sorted_set owners) t.allocations
              (λ o c. contains-sorted_set o owners ∙ c),
      b',
    )

kept-sorted_set :
    (keys : List ℕ) (rows : List Allocation) → kept (sorted_set keys) rows ≡ kept keys rows
kept-sorted_set keys [] = refl
kept-sorted_set keys (a ∷ rows) =
    ground (arith, contains-sorted_set a.key keys, kept-sorted_set keys rows)

-- On exact totals `release` always succeeds: the check on the totals is never violated, exactly
-- the rows of the given keys are deleted, and the totals are exact again.
pub release_total :
    (keys : List ℕ) (t : Tables)
    → IsBalanced t
    → (t' : Tables) × (release keys t ≡ ok t')
      × (t'.allocations ≡ filter (λ a. not (contains a.key keys)) t.allocations)
      × IsBalanced t'
unfolding release
release_total keys t b =
    let (t', e, a, b') = release_keys_total (sorted_set keys) t b in
    (t', e, a ∙ kept-sorted_set keys t.allocations, b')

owners_of-kept : (keys : List ℕ) (rows : List Allocation) → owners_of keys (kept keys rows) ≡ []
owners_of-kept keys [] = refl
owners_of-kept keys (a ∷ rows) = ground (arith, owners_of-kept keys rows)

release_keys_none :
    (keys : List ℕ) (t : Tables) → owners_of keys t.allocations ≡ [] → release_keys keys t ≡ ok t
unfolding release_keys release_owners
release_keys_none [] t e = refl
release_keys_none (k ∷ keys) t e = rw e

-- On exact totals, releasing the same keys a second time succeeds and changes nothing.
pub release_idem :
    (keys : List ℕ) (t : Tables) {t' : Tables}
    → IsBalanced t
    → release keys t ≡ ok t'
    → release keys t' ≡ ok t'
unfolding release
release_idem keys t {t' = t'} b e =
    let (u, e', a, b') = release_keys_total (sorted_set keys) t b in
    let same : u ≡ t' = cc in
    release_keys_none (sorted_set keys) t'
      (rw (← same, a) (owners_of-kept (sorted_set keys) t.allocations))
