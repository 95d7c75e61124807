-- ===== src/Lookup/Admission.antt =====
-- Requests that `legacy_token_scan` of app/auth/token_lookup.py refuses with 503 while another scan
-- runs. They cost the client nothing but the request.
use picture_stage.Base.{
  ℕ, zero, suc, ◌≤◌, ◌≡◌, refl, ◌⊎◌, inl, inr, Bool, true, false, Option, none, List, [], ◌∷◌,
  arith, count_where,
}
use picture_stage.Lookup.Scan.{
  Cursor, Answer, found, in_progress, busy, absent, Write, unchanged, cookie_after, follow,
  follow_answer,
}
use picture_stage.Lookup.Follow.{Settles}

-- The client repeats the request on both kinds of 503.
abbrev pub retry_answer : {A : Type 0} → Answer A → Answer A → Answer A
retry_answer in_progress rest = rest
retry_answer busy rest = rest
retry_answer answer rest = answer

-- A client that repeats the request once for each entry, which says whether a legacy scan is
-- admitted then, with the cookie it was given.
unfoldable pub follow_requests :
    {A : Type 0} → (Bool → Option Cursor → Answer A × Write) → List Bool → Option Cursor → Answer A
follow_requests resolve [] cursor = in_progress
follow_requests resolve (admitted ∷ requests) cursor =
    let answer = resolve admitted cursor in
    let rest = follow_requests resolve requests (cookie_after cursor answer.1) in
    retry_answer answer.0 rest

abbrev pub admissions : List Bool → ℕ
admissions requests = count_where (λ admitted. admitted) requests

abbrev is_final : {A : Type 0} → Answer A → Bool
is_final (found a) = true
is_final absent = true
is_final _ = false

module _ {A : Type 0} (resolve : Bool → Option Cursor → Answer A × Write) where
  -- A request that is not admitted is answered like one that is, or is busy and changes nothing.
  abbrev pub Waits : Type 0
  Waits =
      (cursor : Option Cursor)
      → (resolve false cursor ≡ resolve true cursor) ⊎ (resolve false cursor ≡ (busy, unchanged))

  retry_final :
      (cursor : Option Cursor) (n : ℕ) (requests : List Bool) (r : Answer A × Write) {a : Answer A}
      → is_final a ≡ true
      → follow_answer r.0 (follow (resolve true) n (cookie_after cursor r.1)) ≡ a
      → (follow (resolve true) n (cookie_after cursor r.1) ≡ a
          → follow_requests resolve requests (cookie_after cursor r.1) ≡ a)
      → retry_answer r.0 (follow_requests resolve requests (cookie_after cursor r.1)) ≡ a
  retry_final cursor n requests (found x, w) final e later = e
  retry_final cursor n requests (absent, w) final e later = e
  retry_final cursor n requests (in_progress, w) final e later = later e
  retry_final cursor n requests (busy, w) final e later = cc

  -- What so many admitted requests are answered is answered however many others come between.
  follow_requests-follow :
      Waits
      → (requests : List Bool) (n : ℕ) (cursor : Option Cursor) {a : Answer A}
      → n ≤ admissions requests
      → is_final a ≡ true
      → follow (resolve true) n cursor ≡ a
      → follow_requests resolve requests cursor ≡ a
  unfolding follow follow_requests
  follow_requests-follow waits requests zero cursor enough final e = cc
  follow_requests-follow waits [] (suc n) cursor enough final e = absurd (ground (arith, enough))
  follow_requests-follow waits (true ∷ requests) (suc n) cursor enough final e =
      retry_final cursor n requests (resolve true cursor) final e
        (follow_requests-follow waits requests n _ (ground (arith, enough)) final)
  follow_requests-follow waits (false ∷ requests) (suc n) cursor enough final e =
      elim (waits cursor) [
        | inl same ↦ rw same (
            retry_final cursor n requests (resolve true cursor) final e
              (follow_requests-follow waits requests n _ (ground (arith, enough)) final))
        | inr refused ↦
            rw refused (
              follow_requests-follow waits requests (suc n) cursor (ground (arith, enough)) final e)
      ]

  pub follow_requests-Settles :
      Waits
      → (accepts : A → Bool) (requests : List Bool) (n : ℕ) {exists : Bool}
      → n ≤ admissions requests
      → Settles accepts (follow (resolve true) n none) exists
      → Settles accepts (follow_requests resolve requests none) exists
  follow_requests-Settles waits accepts requests n enough (finds, ends) = (
    λ there.
        let (a, accepted, e) = finds there in
        (a, accepted, follow_requests-follow waits requests n none enough refl e),
    λ gone. follow_requests-follow waits requests n none enough refl (ends gone),
  )
