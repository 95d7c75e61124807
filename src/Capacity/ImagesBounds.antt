-- ===== src/Capacity/ImagesBounds.antt =====
-- The counters of the image slots count the tasks and stay within their limits, and a wait ends.
use picture_stage.Base.{
  ℕ, ◌+◌, ◌*◌, ◌≤◌, ◌≡◌, refl, inl, inr, some, List, [], ◌∷◌, zero, suc, count_where, get_elem?,
  set_at, if◌then◌else◌, count_where-set_at, one_if, arith, Bool-cases, ltb, le→leb,
}
use picture_stage.Capacity.Images.{
  Phase, outside, admitted, waits, is_admitted, is_waiting, Pool, limit_of, enter, poll, leave,
  Step, enters, polls, cancelled, leaves, Reachable, here, after,
}

pub record IsCounted (workers : ℕ) (p : Pool) : Type 0 where
  pub counts_active : p.active ≡ count_where is_admitted p.tasks
  pub counts_waiting : p.waiting ≡ count_where is_waiting p.tasks
  pub active_bounded : p.active ≤ limit_of workers
  pub waiting_bounded : p.waiting ≤ limit_of workers * 2

-- What the change of one task does to the two counts.
counts_after :
    (i : ℕ) (new : Phase) (p : Pool) {old : Phase}
    → get_elem? p.tasks i ≡ some old
    → (count_where is_admitted (set_at i new p.tasks) + one_if (is_admitted old)
        ≡ count_where is_admitted p.tasks + one_if (is_admitted new))
      × (count_where is_waiting (set_at i new p.tasks) + one_if (is_waiting old)
          ≡ count_where is_waiting p.tasks + one_if (is_waiting new))
counts_after i new p there = (
  count_where-set_at is_admitted i new p.tasks there,
  count_where-set_at is_waiting i new p.tasks there,
)

Step-IsCounted :
    (workers : ℕ) {p q : Pool} → IsCounted workers p → Step workers p q → IsCounted workers q
unfolding enter poll leave
Step-IsCounted workers {p = p} h (enters now i outside there _) =
    let entered = counts_after i admitted p there in
    let queued = counts_after i (waits (now + 5000000)) p there in
    ground (arith, h, entered, queued)
Step-IsCounted workers h (enters now i admitted there _) = h
Step-IsCounted workers h (enters now i (waits _) there free) = cc
Step-IsCounted workers {p = p} h (polls now i deadline there) =
    let entered = counts_after i admitted p there in
    let refused = counts_after i outside p there in ground (arith, h, entered, refused)
Step-IsCounted workers {p = p} h (cancelled i deadline there) =
    let gone = counts_after i outside p there in ground (arith, h, gone)
Step-IsCounted workers {p = p} h (leaves i there) =
    let gone = counts_after i outside p there in ground (arith, h, gone)

-- From a pool with counted tasks, whatever the tasks do and in whatever order: the counters are
-- the numbers of admitted and of waiting tasks, so no slot is lost, at most as many tasks as
-- workers are admitted and at most twice as many wait.
pub Reachable-IsCounted :
    (workers : ℕ) (start : Pool) {p : Pool}
    → IsCounted workers start
    → Reachable workers start p
    → IsCounted workers p
Reachable-IsCounted workers start h here = h
Reachable-IsCounted workers start h (after r s) =
    Step-IsCounted workers (Reachable-IsCounted workers start h r) s

get_elem?-set_at :
    (i : ℕ) (y : Phase) (xs : List Phase) {x : Phase}
    → get_elem? xs i ≡ some x
    → get_elem? (set_at i y xs) i ≡ some y
get_elem?-set_at i y [] e = cc
get_elem?-set_at zero y (x ∷ xs) e = refl
get_elem?-set_at (suc i) y (x ∷ xs) e = get_elem?-set_at i y xs e

-- A waiting task that looks at its deadline or later waits no longer: it is admitted if a slot is
-- free, and else refused.
pub poll_ends :
    (workers now deadline i : ℕ) (p : Pool)
    → get_elem? p.tasks i ≡ some (waits deadline)
    → deadline ≤ now
    → get_elem? (poll workers now deadline i p).tasks i
      ≡ some (if ltb p.active (limit_of workers) then admitted else outside)
unfolding poll
poll_ends workers now deadline i p there late =
    let past = le→leb deadline now late in
    elim (Bool-cases (ltb p.active (limit_of workers))) [
      | inl t ↦ rw t (get_elem?-set_at i admitted p.tasks there)
      | inr f ↦ rw (f, past) (get_elem?-set_at i outside p.tasks there)
    ]
