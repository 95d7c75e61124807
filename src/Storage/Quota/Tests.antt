-- ===== src/Storage/Quota/Tests.antt =====
-- One owner with two stored objects: the theorems on the accounting at work.
use picture_stage.Base.{
  ◌≡◌, refl, not, none, some, [], ◌∷◌, filter, contains, ◌==◌, if◌then◌else◌, arith,
}
use picture_stage.Base.Int.{pos}
use picture_stage.Base.Results.{ok, err}
use picture_stage.Storage.Quota.{
  Settings, Usage, Allocation, Tables, set_usage, reserve, release, release_owner, allocation_keys,
  quota_exceeded,
}
use picture_stage.Storage.Quota.Balance.{IsBalanced}
use picture_stage.Storage.Quota.Reserve.{IsReserved, reserve-IsBalanced, reserve-IsReserved}
use picture_stage.Storage.Quota.Release.{release_total}

abbrev limits : Settings
limits = record { max_storage_bytes_per_owner = 100; max_storage_objects_per_owner = 3 }

abbrev first_row : Allocation
first_row = record { key = 11; owner_id = 1; gallery_id = 5; image_id = 7; size = some 40 }

abbrev second_row : Allocation
second_row = record { key = 12; owner_id = 1; gallery_id = 5; image_id = 8; size = some 20 }

abbrev owner_usage : Usage
owner_usage = record { bytes = 60; objects = 2; unknown_sizes = 0 }

abbrev stored : Tables
stored = record {
  usage = set_usage 1 owner_usage (λ _. none);
  allocations = first_row ∷ second_row ∷ [];
}

stored-IsBalanced : IsBalanced stored
stored-IsBalanced o = ground arith

-- The tables after one more object of 40 bytes.
abbrev fuller : Tables
fuller = record {
  usage = set_usage 1 (record { bytes = 100; objects = 3; unknown_sizes = 0 }) stored.usage;
  allocations =
      record { key = 13; owner_id = 1; gallery_id = 5; image_id = 9; size = some 40 }
      ∷ first_row
      ∷ second_row
      ∷ [];
}

reserve_third : reserve limits 1 5 9 13 (pos 40) stored ≡ ok fuller
unfolding reserve
reserve_third = refl

reserve_too_much : reserve limits 1 5 9 13 (pos 41) stored ≡ err quota_exceeded
unfolding reserve
reserve_too_much = refl

keys_of_image : allocation_keys (some 5) (some 8) none stored ≡ 12 ∷ []
unfolding allocation_keys
keys_of_image = refl

reserve-IsBalanced_example : IsBalanced fuller
reserve-IsBalanced_example =
    reserve-IsBalanced limits 1 5 9 13 (pos 40) stored stored-IsBalanced reserve_third

reserve-IsReserved_example : IsReserved limits 1 13 40 stored fuller
reserve-IsReserved_example = reserve-IsReserved limits 1 5 9 13 40 stored reserve_third

-- The same tables, as a retry of the third object writes them.
abbrev retried : Tables
retried = record fuller {
  usage = set_usage 1 (record { bytes = 100; objects = 3; unknown_sizes = 0 }) fuller.usage;
}

reserve_again : reserve limits 1 5 9 13 (pos 30) fuller ≡ ok retried
unfolding reserve
reserve_again = refl

release_total_example :
    (t' : Tables) × (release (12 ∷ 99 ∷ 12 ∷ []) stored ≡ ok t')
    × (t'.allocations ≡ filter (λ a. not (contains a.key (12 ∷ 99 ∷ 12 ∷ []))) stored.allocations)
    × IsBalanced t'
release_total_example = release_total (12 ∷ 99 ∷ 12 ∷ []) stored stored-IsBalanced

-- What is left of the tables when the second object is gone.
abbrev thinner : Tables
thinner = record {
  usage = λ o.
      if o == 1
      then some (record { bytes = 40; objects = 1; unknown_sizes = 0 })
      else stored.usage o;
  allocations = first_row ∷ [];
}

release_second : release (12 ∷ []) stored ≡ ok thinner
unfolding release release_owner
release_second = refl
