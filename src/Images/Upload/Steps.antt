-- ===== src/Images/Upload/Steps.antt =====
-- Every step of an upload keeps its objects owned.
use picture_stage.Base.{
  ℕ, ◌≡◌, ◌≢◌, refl, inl, inr, Bool, true, false, List, ◌∷◌, any, all, arith, contains, Bool-cases,
}
use picture_stage.Images.Upload.{
  UploadPlan, Phase, running, committed, failing, closed, Batch, owned_keys, enter, Write, refused,
  written, broken, write_outcome, upload, add_image, acknowledged, lost, rolled_back, commit,
  removable_keys, Recovery, unreadable, deleted, recover, Step, uploads, adds, raises, commits,
  recovers, stops, Reachable, here, after,
}
use picture_stage.Images.Upload.Owned.{
  is_of_image, IsOwned, any_of_all, kept_of_image, written-IsOwned,
}

-- A change of phase alone.
phase-IsOwned :
    (b : Batch) (phase : Phase) → IsOwned b → phase ≢ running → IsOwned (record b { phase = phase })
phase-IsOwned b phase h ends = record {
  registered = h.registered;
  of_batch = h.of_batch;
  named = h.named;
  protected = λ e. absurd (ends e);
}

upload-IsOwned :
    (b : Batch) (key : ℕ) (outcome : Write)
    → IsOwned b
    → b.phase ≡ running
    → IsOwned (upload key outcome b)
unfolding upload
upload-IsOwned b key outcome h run = elim (Bool-cases (contains key (owned_keys b.plans))) [
  | inr n ↦ rw n (phase-IsOwned b failing h (λ e. cc))
  | inl t ↦ rw t (by_outcome outcome t)
]
  where
    by_outcome :
        (o : Write)
        → contains key (owned_keys b.plans) ≡ true
        → IsOwned (write_outcome key o (record b { attempted_keys = key ∷ b.attempted_keys }))
    by_outcome refused mine = record {
      registered = λ k s. ground (arith, h.registered k s);
      of_batch = h.of_batch;
      named = h.named;
      protected = λ e. cc;
    }
    by_outcome written mine = written-IsOwned b key true b.phase h (h.protected run) mine
    by_outcome (broken there) mine = written-IsOwned b key there failing h (h.protected run) mine

committed-IsOwned :
    (b : Batch) (phase : Phase)
    → IsOwned b
    → phase ≢ running
    → all (λ p. contains p.image_id b.added) b.plans ≡ true
    → IsOwned (record b { intent = false; images = b.added; phase = phase })
committed-IsOwned b phase h ends complete = record {
  registered = h.registered;
  of_batch = h.of_batch;
  named = λ k s. any_of_all k b.added b.plans complete (h.of_batch k s);
  protected = λ e. absurd (ends e);
}

recover-IsOwned : (b : Batch) (outcome : Recovery) → IsOwned b → IsOwned (recover outcome b)
unfolding recover
recover-IsOwned b unreadable h = phase-IsOwned b closed h (λ e. cc)
recover-IsOwned b (deleted fails finished) h = record {
  registered = λ k s. h.registered k (ground (arith, s));
  of_batch = λ k s. h.of_batch k (ground (arith, s));
  named = λ k s. elim (Bool-cases (any fails (removable_keys b))) [
    | inl t ↦ rw t (h.named k (ground (arith, s)))
    | inr f ↦ rw f (ground (arith, kept_of_image b fails k h f s))
  ];
  protected = λ e. cc;
}

Step-IsOwned : {b c : Batch} → IsOwned b → Step b c → IsOwned c
unfolding add_image commit
Step-IsOwned {b = b} h (uploads key outcome run) = upload-IsOwned b key outcome h run
Step-IsOwned {b = b} h (adds image run) = record {
  registered = h.registered;
  of_batch = h.of_batch;
  named = h.named;
  protected = h.protected;
}
Step-IsOwned {b = b} h (raises run) = phase-IsOwned b failing h (λ e. cc)
Step-IsOwned {b = b} h (commits acknowledged run complete) =
    committed-IsOwned b committed h (λ e. cc) complete
Step-IsOwned {b = b} h (commits lost run complete) =
    committed-IsOwned b failing h (λ e. cc) complete
Step-IsOwned {b = b} h (commits rolled_back run complete) = phase-IsOwned b failing h (λ e. cc)
Step-IsOwned {b = b} h (recovers outcome fail) = recover-IsOwned b outcome h
Step-IsOwned {b = b} h stops = phase-IsOwned b closed h (λ e. cc)

enter-IsOwned : (plans : List UploadPlan) → IsOwned (enter plans)
unfolding enter
enter-IsOwned plans = record {
  registered = λ k s. cc;
  of_batch = λ k s. cc;
  named = λ k s. cc;
  protected = λ _. refl;
}

-- However the writes, the commit and the recovery of a batch end, and wherever the process stops:
-- an object that the batch has stored is named by its intent, from which a deletion of the gallery
-- finds it, or belongs to a committed image.
pub Reachable-IsOwned :
    (plans : List UploadPlan) {b : Batch} → Reachable (enter plans) b → IsOwned b
Reachable-IsOwned plans here = enter-IsOwned plans
Reachable-IsOwned plans (after r s) = Step-IsOwned (Reachable-IsOwned plans r) s

-- A recovery that reads the database and deletes what it should ends the batch: the intent is gone
-- and every object that is left belongs to a committed image.
pub recover_complete :
    (b : Batch) (fails : ℕ → Bool)
    → IsOwned b
    → any fails (removable_keys b) ≡ false
    → ((recover (deleted fails true) b).intent ≡ false)
      × ((k : ℕ) → (recover (deleted fails true) b).stored k ≡ true → is_of_image b k ≡ true)
unfolding recover
recover_complete b fails h none_failed =
    (rw none_failed refl, λ k s. kept_of_image b fails k h none_failed s)
