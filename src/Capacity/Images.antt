-- ===== src/Capacity/Images.antt =====
-- `image_processing_slot` of app/images/process_pool.py. A task is outside, waits until a
-- deadline, or is admitted; the counters are changed where the code changes them, and a waiting
-- task looks again each time that it wakes. Between the two locks of a refused wait other tasks may
-- move: the second is the step of a cancelled wait. Times are in microseconds.
use picture_stage.Base.{
  ℕ, ◌+◌, ◌-◌, ◌*◌, ◌≡◌, max, Bool, true, false, some, List, get_elem?, set_at, ltb, leb,
  if◌then◌else◌,
}

pub data Phase : Type 0 where
  outside admitted : Phase
  waits : ℕ → Phase

abbrev pub is_admitted : Phase → Bool
is_admitted admitted = true
is_admitted _ = false

abbrev pub is_waiting : Phase → Bool
is_waiting (waits _) = true
is_waiting _ = false

-- `_active` and `_waiting`, with the tasks of the process.
pub record Pool : Type 0 where
  pub active : ℕ
  pub waiting : ℕ
  pub tasks : List Phase

abbrev pub moved : ℕ → Phase → Pool → Pool
moved i phase p = record p { tasks = set_at i phase p.tasks }

-- `limit = max(1, settings.image_processing_workers)`
abbrev pub limit_of : ℕ → ℕ
limit_of workers = max 1 workers

abbrev pub admit_task : ℕ → Pool → Pool
admit_task i p = record (moved i admitted p) { active = p.active + 1 }

-- The first look at the counters: a slot, a place in the waiting room for five seconds, or
-- `ImageProcessingBusy`. A task that is admitted already enters again without a change.
unfoldable pub enter : ℕ → ℕ → ℕ → Phase → Pool → Pool
enter workers now i admitted p = p
enter workers now i _ p =
    if ltb p.active (limit_of workers)
    then admit_task i p
    else if ltb p.waiting (limit_of workers * 2)
    then record (moved i (waits (now + 5000000)) p) { waiting = p.waiting + 1 }
    else p

-- The `finally` of the wait, for a task that was not admitted.
abbrev pub give_up : ℕ → Pool → Pool
give_up i p = record (moved i outside p) { waiting = p.waiting - 1 }

-- One round of a waiting task: it is admitted, or its deadline has passed and it is refused, or it
-- sleeps again.
unfoldable pub poll : ℕ → ℕ → ℕ → ℕ → Pool → Pool
poll workers now deadline i p =
    if ltb p.active (limit_of workers)
    then record (admit_task i p) { waiting = p.waiting - 1 }
    else if leb deadline now
    then give_up i p
    else p

-- The end of the slot, on every way out.
unfoldable pub leave : ℕ → Pool → Pool
leave i p = record (moved i outside p) { active = p.active - 1 }

-- What may happen next; a wait may also be cancelled.
pub data Step (workers : ℕ) (p : Pool) : Pool → Type 0 where
  enters :
      (now i : ℕ) (phase : Phase)
      → get_elem? p.tasks i ≡ some phase
      → is_waiting phase ≡ false
      → Step workers p (enter workers now i phase p)
  polls :
      (now i deadline : ℕ)
      → get_elem? p.tasks i ≡ some (waits deadline)
      → Step workers p (poll workers now deadline i p)
  cancelled :
      (i deadline : ℕ) → get_elem? p.tasks i ≡ some (waits deadline) → Step workers p (give_up i p)
  leaves : (i : ℕ) → get_elem? p.tasks i ≡ some admitted → Step workers p (leave i p)

pub data Reachable (workers : ℕ) (start : Pool) : Pool → Type 0 where
  here : Reachable workers start start
  after : {p q : Pool} → Reachable workers start p → Step workers p q → Reachable workers start q
