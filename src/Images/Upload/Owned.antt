-- ===== src/Images/Upload/Owned.antt =====
-- No object of an upload is ever without an owner.
use picture_stage.Base.{
  ℕ, ◌≡◌, refl, ◌⊎◌, inl, inr, Bool, true, false, not, ◌&&◌, ◌||◌, List, [], ◌∷◌, filter, any, all,
  arith, contains, contains-append, Bool-cases, ◌==◌,
}
use mathlib.Core.Path.{sym}
use picture_stage.Images.Upload.{
  UploadPlan, Phase, running, Batch, owned_keys, store, removable_keys,
}

-- Whether a committed image has the key.
abbrev pub is_of_image : Batch → ℕ → Bool
is_of_image b k = any (λ p. contains p.image_id b.images && contains k p.keys) b.plans

pub record IsOwned (b : Batch) : Type 0 where
  -- What is stored was registered, is the batch's, and is named by the intent or by an image.
  pub registered : (k : ℕ) → b.stored k ≡ true → contains k b.attempted_keys ≡ true
  pub of_batch : (k : ℕ) → b.stored k ≡ true → contains k (owned_keys b.plans) ≡ true
  pub named : (k : ℕ) → b.stored k ≡ true → (b.intent || is_of_image b k) ≡ true
  pub protected : b.phase ≡ running → b.intent ≡ true

pub any_of_all :
    (k : ℕ) (ids : List ℕ) (plans : List UploadPlan)
    → all (λ p. contains p.image_id ids) plans ≡ true
    → contains k (owned_keys plans) ≡ true
    → any (λ p. contains p.image_id ids && contains k p.keys) plans ≡ true
any_of_all k ids [] h c = cc
any_of_all k ids (p ∷ plans) h c =
    let parts = contains-append k p.keys (owned_keys plans) in
    ground (arith, parts, h, c, any_of_all k ids plans)

contains-filter :
    (k : ℕ) (p : ℕ → Bool) (xs : List ℕ) → contains k (filter p xs) ≡ (contains k xs && p k)
contains-filter k p [] = refl
contains-filter k p (x ∷ xs) = elim (Bool-cases (x == k)) [
  | inl t ↦
      let same : x ≡ k = ground (arith, t) in
      let rest = contains-filter k p xs in
      elim (Bool-cases (p k)) [
        | inl passes ↦ rw (same, passes) (ground (arith, rest, passes, same))
        | inr fails ↦ rw (same, fails) (ground (arith, rest, fails, same))
      ]
  | inr n ↦
      let rest = contains-filter k p xs in
      elim (Bool-cases (p x)) [ inl passes ↦ rw (passes, n) rest | inr fails ↦ rw (fails, n) rest ]
]

-- A key of the batch is of a committed image or of one that is not.
owned_split :
    (k : ℕ) (ids : List ℕ) (plans : List UploadPlan)
    → contains k (owned_keys plans) ≡ true
    → contains k (owned_keys (filter (λ p. not (contains p.image_id ids)) plans)) ≡ false
    → any (λ p. contains p.image_id ids && contains k p.keys) plans ≡ true
owned_split k ids [] c f = cc
owned_split k ids (p ∷ plans) c f =
    let parts = contains-append k p.keys (owned_keys plans) in
    elim (Bool-cases (contains p.image_id ids)) [
      | inl t ↦ rw t (ground (arith, parts, c, owned_split k ids plans, rw t at f))
      | inr n ↦
          let left =
            contains-append k p.keys
              (owned_keys (filter (λ q. not (contains q.image_id ids)) plans)) in
          rw n (ground (arith, parts, c, owned_split k ids plans, left, rw n at f))
    ]

unfailed_key :
    (k : ℕ) (test : ℕ → Bool) (xs : List ℕ)
    → any test xs ≡ false
    → contains k xs ≡ true
    → test k ≡ false
unfailed_key k test [] h c = cc
unfailed_key k test (x ∷ xs) h c = elim (Bool-cases (x == k)) [
  | inl t ↦ let same : x ≡ k = ground (arith, t) in rw (sym same) (ground (arith, h))
  | inr n ↦ unfailed_key k test xs (ground (arith, h)) (rw n at c)
]

-- An object that outlives a recovery without failures is of a committed image.
pub kept_of_image :
    (b : Batch) (fails : ℕ → Bool) (k : ℕ)
    → IsOwned b
    → any fails (removable_keys b) ≡ false
    → (b.stored k && not (contains k (removable_keys b) && not (fails k))) ≡ true
    → is_of_image b k ≡ true
unfolding removable_keys
kept_of_image b fails k owned none_failed kept = elim (Bool-cases (contains k (removable_keys b))) [
  | inl t ↦
      let gone = unfailed_key k fails (removable_keys b) none_failed t in
      let never = rw (t, gone) at kept in ground (arith, never)
  | inr n ↦
      let there : b.stored k ≡ true = ground (arith, kept) in
      let parts =
        contains-filter k (λ x. contains x b.attempted_keys)
          (owned_keys (filter (λ p. not (contains p.image_id b.images)) b.plans)) in
      owned_split k b.images b.plans (owned.of_batch k there)
        (ground (arith, parts, n, owned.registered k there))
]

store_cases :
    (key : ℕ) (there : Bool) (stored : ℕ → Bool) (k : ℕ)
    → store key there stored k ≡ true
    → (stored k ≡ true) ⊎ (k ≡ key)
store_cases key there stored k h = ground (arith, h)

-- A write leaves the objects owned, whichever way it ends.
pub written-IsOwned :
    (b : Batch) (key : ℕ) (there : Bool) (phase : Phase)
    → IsOwned b
    → b.intent ≡ true
    → contains key (owned_keys b.plans) ≡ true
    → IsOwned (record b {
      attempted_keys = key ∷ b.attempted_keys;
      stored = store key there b.stored;
      phase = phase;
    })
written-IsOwned b key there phase h intent mine = record {
  registered = λ k s. elim (store_cases key there b.stored k s) [
    | inl old ↦ ground (arith, h.registered k old)
    | inr same ↦ ground (arith, same)
  ];
  of_batch = λ k s. elim (store_cases key there b.stored k s) [
    | inl old ↦ h.of_batch k old
    | inr same ↦ rw same mine
  ];
  named = λ k s. rw intent refl;
  protected = λ _. intent;
}
