-- ===== src/Security/BodyLimit/Bounded.antt =====
-- What passes `RequestBodySizeLimitMiddleware` of app/security/middleware.py in both directions.
use picture_stage.Base.{
  ℕ, ◌+◌, ◌≤◌, ◌≡◌, refl, inl, inr, true, false, Option, List, [], ◌∷◌, arith, Bool-cases, ap, ◌∙◌,
  count_where, if◌then◌else◌,
}
use picture_stage.Base.Int.{ℤ}
use picture_stage.Security.BodyLimit.{
  Received, request, disconnect, Sent, is_start, State, initial, guarded_send, limited_receive,
  deliver, Call, receives, sends, serve, is_too_long, limited_call,
}

abbrev pub size_of : Received → ℕ
size_of (request n) = n
size_of disconnect = 0

abbrev pub total : List Received → ℕ
total [] = 0
total (m ∷ ms) = size_of m + total ms

abbrev pub starts : List Sent → ℕ
starts sent = count_where is_start sent

-- The responses that the inner application starts.
abbrev pub app_starts : List Call → ℕ
app_starts [] = 0
app_starts (receives _ ∷ calls) = app_starts calls
app_starts (sends m ∷ calls) = (if is_start m then 1 else 0) + app_starts calls

-- The body that the server has for the calls of the inner application.
abbrev pub offered : List Call → ℕ
offered [] = 0
offered (receives m ∷ calls) = size_of m + offered calls
offered (sends _ ∷ calls) = offered calls

-- All that the server has for the calls, and all that they send, the latest first.
abbrev pub all_received : List Call → List Received → List Received
all_received [] acc = acc
all_received (receives m ∷ calls) acc = all_received calls (m ∷ acc)
all_received (sends _ ∷ calls) acc = all_received calls acc

abbrev pub all_sent : List Call → List Sent → List Sent
all_sent [] acc = acc
all_sent (receives _ ∷ calls) acc = all_sent calls acc
all_sent (sends m ∷ calls) acc = all_sent calls (m ∷ acc)

serve-total :
    (limit : ℕ) (calls : List Call) (s : State)
    → total s.delivered ≤ limit
    → (s.limit_hit ≡ false → total s.delivered ≡ s.received)
    → total (serve limit calls s).delivered ≤ limit
unfolding serve
serve-total limit [] s h k = h
serve-total limit (receives disconnect ∷ calls) s h k =
    serve-total limit calls (deliver disconnect s) (ground arith) (λ q. ground (arith, k q))
serve-total limit (receives (request n) ∷ calls) s h k =
    serve-total limit calls (limited_receive limit (request n) s) (ground (arith, k))
      (λ q. ground (arith, k))
serve-total limit (sends m ∷ calls) s h k =
    serve-total limit calls (guarded_send m s) (ground arith) (λ q. ground (arith, k))

-- The inner application is never handed more of a body than the limit, whatever the declared
-- length and however it reads.
pub limited_call-total :
    (limit : ℕ) (content_length : Option (Option ℤ)) (calls : List Call)
    → total (limited_call limit content_length calls).delivered ≤ limit
unfolding limited_call
limited_call-total limit content_length calls =
    elim (Bool-cases (is_too_long limit content_length)) [
      | inl long ↦ rw long (omega arith)
      | inr short ↦ rw short (serve-total limit calls initial (omega arith) (λ q. refl))
    ]

-- Only one response has been or will be started.
record IsSingle (calls : List Call) (s : State) : Type 0 where
  hit : s.rejected ≡ true → s.limit_hit ≡ true
  when_rejected : s.rejected ≡ true → starts s.sent ≤ 1
  otherwise : s.rejected ≡ false → starts s.sent + app_starts calls ≤ 1
  unstarted : s.rejected ≡ false → s.response_started ≡ false → starts s.sent ≡ 0

serve-starts :
    (limit : ℕ) (calls : List Call) (s : State)
    → IsSingle calls s
    → starts (serve limit calls s).sent ≤ 1
unfolding serve
serve-starts limit [] s h = elim (Bool-cases s.rejected) [
  | inl t ↦ h.when_rejected t
  | inr f ↦ omega (arith, h.otherwise f)
]
serve-starts limit (receives disconnect ∷ calls) s h =
    serve-starts limit calls (deliver disconnect s) (record {
      hit = h.hit;
      when_rejected = h.when_rejected;
      otherwise = h.otherwise;
      unstarted = h.unstarted;
    })
serve-starts limit (receives (request n) ∷ calls) s h =
    serve-starts limit calls (limited_receive limit (request n) s) (record {
      hit = λ q. ground (arith, h.hit);
      when_rejected = λ q. ground (arith, h.hit, h.when_rejected, h.otherwise, h.unstarted);
      otherwise = λ q. ground (arith, h.when_rejected, h.otherwise, h.unstarted);
      unstarted = λ q r. ground (arith, h.when_rejected, h.otherwise, h.unstarted);
    })
serve-starts limit (sends m ∷ calls) s h = serve-starts limit calls (guarded_send m s) (record {
  hit = λ q. ground (arith, h.hit);
  when_rejected = λ q. ground (arith, h.hit, h.when_rejected, h.otherwise, h.unstarted);
  otherwise = λ q. ground (arith, h.when_rejected, h.otherwise, h.unstarted);
  unstarted = λ q r. ground (arith, h.when_rejected, h.otherwise, h.unstarted);
})

-- An inner application that starts at most one response leaves the client with at most one, the
-- 413 of the middleware included.
pub limited_call-starts :
    (limit : ℕ) (content_length : Option (Option ℤ)) (calls : List Call)
    → app_starts calls ≤ 1
    → starts (limited_call limit content_length calls).sent ≤ 1
unfolding limited_call
limited_call-starts limit content_length calls h =
    elim (Bool-cases (is_too_long limit content_length)) [
      | inl long ↦ rw long (omega arith)
      | inr short ↦ rw short (
          serve-starts limit calls initial (record {
            hit = λ q. cc;
            when_rejected = λ q. cc;
            otherwise = λ q. omega (arith, h);
            unstarted = λ q r. refl;
          }))
    ]

serve-transparent :
    (limit : ℕ) (calls : List Call) (s : State)
    → s.limit_hit ≡ false
    → s.rejected ≡ false
    → s.received + offered calls ≤ limit
    → ((serve limit calls s).delivered ≡ all_received calls s.delivered)
      × ((serve limit calls s).sent ≡ all_sent calls s.sent)
unfolding serve
serve-transparent limit [] s unhit quiet fits = (refl, refl)
serve-transparent limit (receives disconnect ∷ calls) s unhit quiet fits =
    serve-transparent limit calls (deliver disconnect s) unhit quiet (omega (arith, fits))
serve-transparent limit (receives (request n) ∷ calls) s unhit quiet fits =
    let next = limited_receive limit (request n) s in
    let received : next.delivered ≡ request n ∷ s.delivered = ground (arith, unhit, fits) in
    let kept : next.sent ≡ s.sent = ground (arith, unhit, fits) in
    let rest =
      serve-transparent limit calls next (ground (arith, unhit, fits))
        (ground (arith, unhit, quiet, fits)) (ground (arith, unhit, fits)) in
    (rest.0 ∙ ap (all_received calls) received, rest.1 ∙ ap (all_sent calls) kept)
serve-transparent limit (sends m ∷ calls) s unhit quiet fits =
    let next = guarded_send m s in
    let kept : next.delivered ≡ s.delivered = ground (arith, quiet) in
    let passed : next.sent ≡ m ∷ s.sent = ground (arith, quiet) in
    let rest =
      serve-transparent limit calls next (ground (arith, unhit, quiet)) (ground (arith, quiet))
        (ground (arith, quiet, fits)) in
    (rest.0 ∙ ap (all_received calls) kept, rest.1 ∙ ap (all_sent calls) passed)

-- A request whose declared length and whose body are within the limit passes as if there were no
-- middleware: everything received and everything sent goes through, in order.
pub limited_call-transparent :
    (limit : ℕ) (content_length : Option (Option ℤ)) (calls : List Call)
    → is_too_long limit content_length ≡ false
    → offered calls ≤ limit
    → ((limited_call limit content_length calls).delivered ≡ all_received calls [])
      × ((limited_call limit content_length calls).sent ≡ all_sent calls [])
unfolding limited_call
limited_call-transparent limit content_length calls short fits =
    rw short (serve-transparent limit calls initial refl refl (omega (arith, fits)))
