-- ===== src/Capacity/Hashing.antt =====
-- `hash_gallery_password` of app/galleries/password_hashing.py: at most two hashes run in a
-- process. A request starts a worker or is refused; a caller may go away while its worker runs,
-- and only the worker gives the slot back.
use picture_stage.Base.{
  ℕ, ◌+◌, ◌-◌, ◌≤◌, ◌≡◌, Bool, true, false, some, List, get_elem?, set_at, count_where,
  count_where-set_at, arith, leb, if◌then◌else◌,
}

-- A request's place: free, admitted and about to start its worker, or with a worker, whose caller
-- still waits or has gone.
pub data Job : Type 0 where
  idle submitting : Job
  hashing : Bool → Job

abbrev pub holds_slot : Job → Bool
holds_slot idle = false
holds_slot submitting = true
holds_slot (hashing _) = true

-- `_running`, with the places.
pub record Hashes : Type 0 where
  pub running : ℕ
  pub jobs : List Job

abbrev pub max_concurrent_hashes : ℕ
max_concurrent_hashes = 2

-- The admission, or `GalleryPasswordBusy`.
unfoldable pub request_hash : ℕ → Hashes → Hashes
request_hash i h =
    if leb max_concurrent_hashes h.running
    then h
    else record h { running = h.running + 1; jobs = set_at i submitting h.jobs }

-- `run_in_executor`; where it raises, the counter is taken back.
unfoldable pub submit : Bool → ℕ → Hashes → Hashes
submit true i h = record h { jobs = set_at i (hashing true) h.jobs }
submit false i h = record h { running = h.running - 1; jobs = set_at i idle h.jobs }

-- A cancelled caller leaves the shielded worker alone.
unfoldable pub cancel_caller : ℕ → Hashes → Hashes
cancel_caller i h = record h { jobs = set_at i (hashing false) h.jobs }

-- `_hash_and_release`, at the end of the worker.
unfoldable pub hash_and_release : ℕ → Hashes → Hashes
hash_and_release i h = record h { running = h.running - 1; jobs = set_at i idle h.jobs }

pub data Step (h : Hashes) : Hashes → Type 0 where
  requests : (i : ℕ) → get_elem? h.jobs i ≡ some idle → Step h (request_hash i h)
  submits :
      (accepted : Bool) (i : ℕ)
      → get_elem? h.jobs i ≡ some submitting
      → Step h (submit accepted i h)
  cancels : (i : ℕ) → get_elem? h.jobs i ≡ some (hashing true) → Step h (cancel_caller i h)
  finishes :
      (i : ℕ) (waited : Bool)
      → get_elem? h.jobs i ≡ some (hashing waited)
      → Step h (hash_and_release i h)

pub data Reachable (start : Hashes) : Hashes → Type 0 where
  here : Reachable start start
  after : {h k : Hashes} → Reachable start h → Step h k → Reachable start k

pub record AreCounted (h : Hashes) : Type 0 where
  pub counts : h.running ≡ count_where holds_slot h.jobs
  pub bounded : h.running ≤ max_concurrent_hashes

Step-AreCounted : {h k : Hashes} → AreCounted h → Step h k → AreCounted k
unfolding request_hash submit cancel_caller hash_and_release
Step-AreCounted {h = h} counted (requests i there) =
    let admitted = count_where-set_at holds_slot i submitting h.jobs there in
    ground (arith, counted, admitted)
Step-AreCounted {h = h} counted (submits true i there) =
    let started = count_where-set_at holds_slot i (hashing true) h.jobs there in
    ground (arith, counted, started)
Step-AreCounted {h = h} counted (submits false i there) =
    let refused = count_where-set_at holds_slot i idle h.jobs there in
    ground (arith, counted, refused)
Step-AreCounted {h = h} counted (cancels i there) =
    let gone = count_where-set_at holds_slot i (hashing false) h.jobs there in
    ground (arith, counted, gone)
Step-AreCounted {h = h} counted (finishes i waited there) =
    let done = count_where-set_at holds_slot i idle h.jobs there in ground (arith, counted, done)

-- Whatever requests, refused workers, cancelled callers and finished workers follow one another, the
-- counter is the number of places that hold a slot, and at most two do.
pub Reachable-AreCounted :
    (start : Hashes) {h : Hashes} → AreCounted start → Reachable start h → AreCounted h
Reachable-AreCounted start counted here = counted
Reachable-AreCounted start counted (after r s) =
    Step-AreCounted (Reachable-AreCounted start counted r) s
