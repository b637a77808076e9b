-- ===== src/H3/Streams/Events.antt =====
-- h3.rs: which calls push events about a stream, over any sequence of calls.
use nix_config.Common.{
  ℕ, ◌+◌, ◌≤◌, ◌≡◌, ◌≢◌, List, [], ◌∷◌, All, ap, true, false, Option, none, some, inl, inr,
  Bool-cases, if◌then◌else◌, ◌==◌, ==_iff, arith, find_key, remove_key, find-insert, find-remove,
}
use nix_config.H3.Frames.{empty_parser}
use nix_config.H3.Streams.{
  new_reply, Reply, StreamState, server_uni, sink, response, H3Event, H3, register_request, finish,
  finish_events, finish_reply, reset, reset_events,
}
use nix_config.H3.Streams.Quiet.{
  Call, registers, feeds, finishes, resets, step, run, count_for, open_count, open_in, count-append,
  count_none, feed-Quiet,
}

-- The end of a stream: at most one event, and only about an open request, which is closed.
Closes : ℕ → ℕ → H3 → List H3Event → Type 0
Closes s t h events =
    count_for s events + open_count (find_key s (remove_key t h.streams)) ≤ open_in s h

finish_reply-count :
    (s t : ℕ) (r : Reply) → count_for s (finish_reply t r ∷ []) ≡ (if t == s then 1 else 0)
unfolding finish_reply count_for
finish_reply-count s t r = ground arith

abbrev ended : ℕ → ℕ → Option StreamState → ℕ
ended s t o = if t == s then open_count o else 0

finish_events-count :
    (s t : ℕ) (o : Option StreamState) → count_for s (finish_events t o) ≤ ended s t o
unfolding finish_events count_for
finish_events-count s t (some (response p r)) = omega (arith, finish_reply-count s t r)
finish_events-count s t (some sink) = omega arith
finish_events-count s t (some (server_uni ty p)) = omega arith
finish_events-count s t none = omega arith

reset_events-count :
    (s t : ℕ) (o : Option StreamState) → count_for s (reset_events t o) ≤ ended s t o
unfolding reset_events count_for
reset_events-count s t (some (response p r)) = ground arith
reset_events-count s t (some sink) = omega arith
reset_events-count s t (some (server_uni ty p)) = omega arith
reset_events-count s t none = omega arith

ended-Closes :
    (s t : ℕ) (h : H3) (events : List H3Event)
    → count_for s events ≤ ended s t (find_key t h.streams)
    → Closes s t h events
unfolding Closes
ended-Closes s t h events c = elim (Bool-cases (t == s)) [
  | inl same ↦
      let same' : t ≡ s = (==_iff t s).0 same in
      rw (find-remove t s h.streams, same) (omega (arith, counted same, moved same'))
  | inr other ↦ rw (find-remove t s h.streams, other) (omega (arith, rw other at c))
]
  where
    counted : (t == s) ≡ true → count_for s events ≤ open_count (find_key t h.streams)
    counted e = rw e at c

    moved : t ≡ s → open_count (find_key t h.streams) ≡ open_count (find_key s h.streams)
    moved e = ap (λ (k : ℕ). open_count (find_key k h.streams)) e

-- The call does not open the stream.
abbrev pub NotRegisters : ℕ → Call → Type 0
NotRegisters s (registers t) = t ≢ s
NotRegisters s (feeds t bytes) = Unit
NotRegisters s (finishes t) = Unit
NotRegisters s (resets t) = Unit

step-open_in :
    (s : ℕ) (c : Call) (h : H3)
    → NotRegisters s c
    → count_for s (step c h).1 + open_in s (step c h).0 ≤ open_in s h
unfolding step register_request
step-open_in s (registers t) h other =
    rw (find-insert t s (response empty_parser new_reply) h.streams, ne→== t s other)
      (omega (arith, count_none s))
  where
    ne→== : (t s : ℕ) → t ≢ s → (t == s) ≡ false
    ne→== t s h = ground arith
step-open_in s (feeds t bytes) h other = omega (arith, feed-Quiet s t bytes h)
step-open_in s (finishes t) h other =
    unfold finish Closes in
    ended-Closes s t h (finish_events t (find_key t h.streams))
      (finish_events-count s t (find_key t h.streams))
step-open_in s (resets t) h other =
    unfold reset Closes in
    ended-Closes s t h (reset_events t (find_key t h.streams))
      (reset_events-count s t (find_key t h.streams))

-- Over any sequence of calls that does not open the stream again, a stream that is an open request
-- gets at most one event, response or failure, and none if it is still open afterwards; any other
-- stream gets none.
pub count-run :
    (s : ℕ) (calls : List Call) (h : H3)
    → All (NotRegisters s) calls
    → count_for s (run calls h).1 + open_in s (run calls h).0 ≤ open_in s h
unfolding run
count-run s [] h other = omega (arith, count_none s)
count-run s (c ∷ calls) h (one, others) = omega (
  arith,
  count-append s (step c h).1 (run calls (step c h).0).1,
  step-open_in s c h one,
  count-run s calls (step c h).0 others,
)
