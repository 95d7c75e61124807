-- ===== src/Capacity/Tests.antt =====
-- Two uploads at one worker: the second waits for the first. A hash whose caller goes away.
use picture_stage.Base.{refl, arith, true, false, [], ◌∷◌}
use picture_stage.Capacity.Images.{
  outside, admitted, waits, Pool, enter, poll, leave, Reachable, here, after, enters, polls, leaves,
}
use picture_stage.Capacity.ImagesBounds.{IsCounted, Reachable-IsCounted}
use picture_stage.Capacity.Hashing
use picture_stage.Capacity.Hashing.{
  Hashes, Reachable-AreCounted, AreCounted, cancel_caller, request_hash, submit,
}

abbrev quiet : Pool
quiet = record { active = 0; waiting = 0; tasks = outside ∷ outside ∷ [] }

abbrev queued : Pool
queued = record { active = 1; waiting = 1; tasks = admitted ∷ waits 5000003 ∷ [] }

abbrev taken_over : Pool
taken_over = record { active = 1; waiting = 0; tasks = outside ∷ admitted ∷ [] }

two_enter : Reachable 1 quiet queued
unfolding enter
two_enter = after (after here (enters 2 0 outside refl refl)) (enters 3 1 outside refl refl)

second_follows : Reachable 1 quiet taken_over
unfolding leave poll
second_follows = after (after two_enter (leaves 0 refl)) (polls 9 1 5000003 refl)

Reachable-IsCounted_example : IsCounted 1 taken_over
Reachable-IsCounted_example = Reachable-IsCounted 1 quiet (ground arith) second_follows

abbrev free_places : Hashes
free_places = record { running = 0; jobs = Hashing.idle ∷ [] }

abbrev abandoned : Hashes
abandoned = record { running = 1; jobs = Hashing.hashing false ∷ [] }

caller_goes : Hashing.Reachable free_places abandoned
unfolding cancel_caller submit request_hash
caller_goes =
    Hashing.after
      (Hashing.after (Hashing.after Hashing.here (Hashing.requests 0 refl))
        (Hashing.submits true 0 refl))
      (Hashing.cancels 0 refl)

Reachable-AreCounted_example : AreCounted abandoned
Reachable-AreCounted_example = Reachable-AreCounted free_places (ground arith) caller_goes
