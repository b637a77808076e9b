-- ===== src/Worker/Requests/Calls.antt =====
-- worker.rs: sequences of the calls that take queries in and answer them.
use nix_config.Common.{
  some-injective, none≢some, ℕ, suc, ◌+◌, ◌≡◌, refl, subst, List, [], ◌∷◌, Option-cases, inl, inr,
  Option, none, some, find_key, arith, Result-cases, ok, err,
}
use nix_config.Dns.Validate.{validate_query}
use nix_config.H3.Streams.{H3Event, responded, failed, goaway_event}
use nix_config.Worker.Dispatch.{Config}
use nix_config.Worker.Requests.{
  Requests, QuicReply, Link, receive, flush_one, give_up_all, apply_event, expired_keys,
  expire_pending, expire_queue, fail_all_pending,
}
use nix_config.Worker.Requests.Held.{Held, held_total}
use nix_config.Worker.Requests.Balance.{Balanced, FreshIn, valid_long, accept-Balanced}
use nix_config.Worker.Requests.Answers.{
  answer-Balanced, give_up-Balanced, give_up_all-Balanced, flush_front-Balanced,
  expire_front-Balanced, fail_each-Balanced,
}

pub data Call : Type 0 where
  receives : Link → QuicReply → List ℕ → ℕ → ℕ → Call
  flushes : QuicReply → ℕ → Call
  events : ℕ → H3Event → Call
  expires : ℕ → Call
  disconnects : Call

-- The calls of one worker; `housekeeping` expires waiting and queued queries.
unfoldable pub step : Config → Call → Requests → Option Requests
step cfg (receives link quic query peer now) s = receive cfg link quic query peer now s
step cfg (flushes quic now) s = flush_one cfg quic now s
step cfg (events now ev) s = some (apply_event now ev s)
step cfg (expires now) s = some (expire_queue now (expire_pending now s))
step cfg disconnects s = some (fail_all_pending s)

unfoldable pub run : Config → List Call → Requests → Option Requests
run cfg [] s = some s
run cfg (c ∷ calls) s = elim (step cfg c s) [ none ↦ none | some s' ↦ run cfg calls s' ]

-- How many valid queries the calls take in.
unfoldable pub accepted : List Call → ℕ
accepted [] = 0
accepted (receives link quic query peer now ∷ calls) =
    let rest = accepted calls in elim (validate_query query) [ ok u ↦ suc rest | err e ↦ rest ]
accepted (flushes quic now ∷ calls) = accepted calls
accepted (events now ev ∷ calls) = accepted calls
accepted (expires now ∷ calls) = accepted calls
accepted (disconnects ∷ calls) = accepted calls

-- Each stream that the QUIC library opens is one that no query is waiting on.
abbrev pub FreshCall : Call → Requests → Type 0
FreshCall (receives link quic query peer now) s = FreshIn quic.opened s.pending
FreshCall (flushes quic now) s = FreshIn quic.opened s.pending
FreshCall (events now ev) s = Unit
FreshCall (expires now) s = Unit
FreshCall disconnects s = Unit

unfoldable pub FreshRun : Config → List Call → Requests → Type 0
FreshRun cfg [] s = Unit
FreshRun cfg (c ∷ calls) s =
    FreshCall c s
    × (elim (step cfg c s) as (λ _. Type 0) [ none ↦ Unit | some s' ↦ FreshRun cfg calls s' ])

receive-Balanced :
    (cfg : Config) (link : Link) (quic : QuicReply) (q : List ℕ) (peer now : ℕ) (s s' : Requests)
    → Held s
    → FreshIn quic.opened s.pending
    → receive cfg link quic q peer now s ≡ some s'
    → Balanced (accepted (receives link quic q peer now ∷ [])) s s'
unfolding receive accepted
receive-Balanced cfg link quic q peer now s s' h fresh e = elim (Result-cases (validate_query q)) [
  | inl (u, valid) ↦
      rw (accepted, valid)
        (accept-Balanced cfg link quic q peer now s s' (valid_long q u valid) h fresh
          (rw (receive, valid) at e))
  | inr (x, invalid) ↦
      rw (accepted, invalid)
        (subst (Balanced 0 s) (some-injective (rw (receive, invalid) at e)) (h, omega arith))
]

event-Balanced :
    (now : ℕ) (ev : H3Event) (s : Requests) → Held s → Balanced 0 s (apply_event now ev s)
unfolding apply_event
event-Balanced now (responded t body) s h =
    answer-Balanced now t body (find_key t s.pending) s h refl
event-Balanced now (failed t) s h = give_up-Balanced t (find_key t s.pending) s h refl
event-Balanced now goaway_event s h = (h, omega arith)

expire-Balanced :
    (now : ℕ) (s : Requests) → Held s → Balanced 0 s (expire_queue now (expire_pending now s))
unfolding expire_pending expire_queue
expire-Balanced now s h =
    let waiting = give_up_all-Balanced (expired_keys now s.pending) s h in
    let t = give_up_all (expired_keys now s.pending) s in
    let queued = expire_front-Balanced now t.queue t waiting.0.queue_long waiting.0 in
    (queued.0, omega (arith, waiting.1, queued.1))

step-Balanced :
    (cfg : Config) (c : Call) (s s' : Requests)
    → Held s
    → FreshCall c s
    → step cfg c s ≡ some s'
    → Balanced (accepted (c ∷ [])) s s'
unfolding step accepted
step-Balanced cfg (receives link quic q peer now) s s' h fresh e =
    receive-Balanced cfg link quic q peer now s s' h fresh e
step-Balanced cfg (flushes quic now) s s' h fresh e =
    flush_front-Balanced cfg quic now s.queue s s' refl h fresh (unfold flush_one in e)
step-Balanced cfg (events now ev) s s' h fresh e =
    subst (Balanced 0 s) (some-injective e) (event-Balanced now ev s h)
step-Balanced cfg (expires now) s s' h fresh e =
    subst (Balanced 0 s) (some-injective e) (expire-Balanced now s h)
step-Balanced cfg disconnects s s' h fresh e =
    subst (Balanced 0 s) (some-injective e)
      (unfold fail_all_pending in fail_each-Balanced s.pending s h.pending_long h.queue_long)

accepted-cons :
    (c : Call) (calls : List Call) → accepted (c ∷ calls) ≡ accepted (c ∷ []) + accepted calls
unfolding accepted
accepted-cons (receives link quic query peer now) calls =
    elim (Result-cases (validate_query query)) [
      | inl (u, valid) ↦ rw (accepted, valid) (omega arith)
      | inr (x, invalid) ↦ rw (accepted, invalid) (omega arith)
    ]
accepted-cons (flushes quic now) calls = omega arith
accepted-cons (events now ev) calls = omega arith
accepted-cons (expires now) calls = omega arith
accepted-cons disconnects calls = omega arith

-- Over any sequence of datagrams, flushed queries, events of the H3 layer, expiries and lost connections
-- that does not panic, where the QUIC library never opens a stream that a query is still waiting on: the
-- queries that wait for a response, those queued for the handshake and the datagrams sent to clients
-- grow together by exactly the number of valid queries received; each query held has a full header, and
-- no two wait on one stream, as before.
pub run-Balanced :
    (cfg : Config) (calls : List Call) (s s' : Requests)
    → Held s
    → FreshRun cfg calls s
    → run cfg calls s ≡ some s'
    → Held s' × (held_total s' ≡ held_total s + accepted calls)
unfolding run FreshRun accepted
run-Balanced cfg [] s s' h fresh e = subst (Balanced 0 s) (some-injective e) (h, omega arith)
run-Balanced cfg (c ∷ calls) s s' h (fresh, later) e = elim (Option-cases (step cfg c s)) [
  | inl panics ↦ absurd (none≢some (rw (panics, run) at e))
  | inr (t, stepped) ↦
      let one = step-Balanced cfg c s t h fresh stepped in
      let rest =
        run-Balanced cfg calls t s' one.0 (rw (stepped) at later) (rw (stepped, run) at e) in
      (rest.0, omega (arith, one.1, rest.1, accepted-cons c calls))
]
