-- ===== src/Lookup/Scan.antt =====
-- What the resolvers of app/guest/service.py and app/auth/token_lookup.py share: one request reads
-- the next window of candidate keys in order, verifies the rows of the window, and either has a
-- row, or answers 503 with the last key of the window as its progress, or has seen all keys. The
-- client repeats the request until it is answered.
use picture_stage.Base.{
  ℕ, zero, suc, ◌-◌, Bool, ◌&&◌, Option, none, some, List, take, length, contains, find_where,
  get_elem?, ltb, if◌then◌else◌,
}

-- The phases of `LookupProgress`, with the key that was reached: `h`, `i` and `l`.
pub data Cursor : Type 0 where
  hint indexed legacy : ℕ → Cursor

-- What a resolver answers: a row, the 503 of `LookupProgress.retry`, the 503 of
-- `legacy_token_scan`, or None.
pub data Answer (A : Type 0) : Type 0 where
  found : A → Answer A
  in_progress busy absent : Answer A

-- What it does to the progress cookie.
pub data Write : Type 0 where
  unchanged cleared : Write
  saved : Cursor → Write

pub data Scan (A : Type 0) : Type 0 where
  hit : A → Scan A
  more : ℕ → Scan A
  over : Scan A

abbrev pub more_from : {A : Type 0} → Option ℕ → Scan A
more_from none = over
more_from (some key) = more key

-- `len(ids) > window`, then `ids[window - 1]`
unfoldable pub end_of_window : {A : Type 0} → ℕ → List ℕ → Scan A
end_of_window window ids =
    if ltb window (length ids) then more_from (get_elem? ids (window - 1)) else over

-- The rows of a window are read with `id.in_(ids)` and verified in turn.
abbrev pub check_window : {A : Type 0} → (A → ℕ) → (A → Bool) → List ℕ → List A → Option A
check_window key accepts ids rows = find_where (λ x. contains (key x) ids && accepts x) rows

abbrev pub hit_or : {A : Type 0} → Option A → Scan A → Scan A
hit_or none rest = rest
hit_or (some a) rest = hit a

-- One window of the keys that are left, which a query reads with one key beyond it.
unfoldable pub scan : {A : Type 0} → (A → ℕ) → (A → Bool) → List A → ℕ → List ℕ → Scan A
unfolding end_of_window
scan key accepts rows window left =
    let ids = take (suc window) left in
    hit_or (check_window key accepts (take window ids) rows) (end_of_window window ids)

-- The end of a resolver: the legacy window, under the admission of `legacy_token_scan`.
abbrev pub settle : {A : Type 0} → (A → Write) → Scan A → Answer A × Write
settle on_hit (hit a) = (found a, on_hit a)
settle on_hit (more key) = (in_progress, saved (legacy key))
settle on_hit over = (absent, cleared)

abbrev pub admit : {A : Type 0} → Bool → Answer A × Write → Answer A × Write
admit admitted answer = if admitted then answer else (busy, unchanged)

-- The cookie that the client sends next.
abbrev pub cookie_after : Option Cursor → Write → Option Cursor
cookie_after cursor unchanged = cursor
cookie_after cursor cleared = none
cookie_after cursor (saved c) = some c

abbrev pub follow_answer : {A : Type 0} → Answer A → Answer A → Answer A
follow_answer in_progress rest = rest
follow_answer answer rest = answer

-- A client that repeats the request, at most so many times, with the cookie it was given.
unfoldable pub follow :
    {A : Type 0} → (Option Cursor → Answer A × Write) → ℕ → Option Cursor → Answer A
follow resolve zero cursor = in_progress
follow resolve (suc n) cursor =
    let answer = resolve cursor in
    let rest = follow resolve n (cookie_after cursor answer.1) in follow_answer answer.0 rest
