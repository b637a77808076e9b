-- ===== src/H3/Streams/Quiet.antt =====
-- h3.rs: sequences of calls, and that feeding a stream pushes no event about any stream.
use nix_config.Common.{
  ℕ, suc, ◌+◌, ◌≤◌, ◌≡◌, refl, List, [], ◌∷◌, ◌++◌, Bool, Option, none, some, inl, inr, Bool-cases,
  if◌then◌else◌, ◌==◌, ==_iff, arith, find_key, insert_key, remove_key, find-insert, find-remove,
  drop, Option-cases,
}
use nix_config.Varint.{varint_decode}
use nix_config.H3.Frames.{FrameParser, feed_parser, for_frames}
use nix_config.H3.Frames.Drained.{for_frames_keeps}
use nix_config.H3.Request.{stream_type_control}
use nix_config.H3.Streams.{
  insert_stream, remove_stream, Reply, StreamState, server_uni, sink, response, H3Event, responded,
  failed, goaway_event, H3, register_request, control_frame, process_server_uni, classify,
  feed_untyped, feed_state, entry_state, feed, finish, reset,
}

pub data Call : Type 0 where
  registers : ℕ → Call
  feeds : ℕ → List ℕ → Call
  finishes resets : ℕ → Call

unfoldable pub step : Call → H3 → H3 × List H3Event
step (registers stream) h = (register_request stream h, [])
step (feeds stream bytes) h = feed stream bytes h
step (finishes stream) h = finish stream h
step (resets stream) h = reset stream h

unfoldable pub run : List Call → H3 → H3 × List H3Event
run [] h = (h, [])
run (c ∷ calls) h = let r = step c h in let rest = run calls r.0 in (rest.0, r.1 ++ rest.1)

-- How many of the events are about the stream.
unfoldable pub count_for : ℕ → List H3Event → ℕ
count_for stream [] = 0
count_for stream (responded t body ∷ events) =
    let n = count_for stream events in if t == stream then suc n else n
count_for stream (failed t ∷ events) =
    let n = count_for stream events in if t == stream then suc n else n
count_for stream (goaway_event ∷ events) = count_for stream events

-- 1 for a request stream that is open, else 0.
abbrev pub open_count : Option StreamState → ℕ
open_count (some (response parser r)) = 1
open_count other = 0

abbrev pub open_in : ℕ → H3 → ℕ
open_in stream h = open_count (find_key stream h.streams)

pub count-append :
    (stream : ℕ) (xs ys : List H3Event)
    → count_for stream (xs ++ ys) ≡ count_for stream xs + count_for stream ys
unfolding count_for
count-append stream [] ys = omega arith
count-append stream (responded t body ∷ xs) ys = ground (arith, count-append stream xs ys)
count-append stream (failed t ∷ xs) ys = ground (arith, count-append stream xs ys)
count-append stream (goaway_event ∷ xs) ys = count-append stream xs ys

control_frame-count :
    (stream : ℕ) (frame : ℕ × List ℕ) (s : Bool × List H3Event)
    → count_for stream s.1 ≡ 0
    → count_for stream (control_frame frame s).1 ≡ 0
unfolding control_frame count_for
control_frame-count stream (ty, payload) (g, events) h =
    ground (arith, count-append stream events (goaway_event ∷ []))

-- What a call on stream `t` may do to stream `s`: no event about `s`, and no new open request.
abbrev pub Quiet : ℕ → H3 → H3 × List H3Event → Type 0
Quiet s h r = (count_for s r.1 ≡ 0) × (open_in s r.0 ≤ open_in s h)

-- A stream that is stored in a state other than an open request.
pub insert-Quiet :
    (s t : ℕ) (state : StreamState) (m : List (ℕ × StreamState))
    → open_count (some state) ≡ 0
    → open_count (find_key s (insert_key t state m)) ≤ open_count (find_key s m)
insert-Quiet s t state m h = elim (Bool-cases (t == s)) [
  | inl e ↦ rw (find-insert t s state m, e) (omega arith)
  | inr e ↦ rw (find-insert t s state m, e) (omega arith)
]

pub count_none : (s : ℕ) → count_for s [] ≡ 0
unfolding count_for
count_none s = refl

control-Quiet :
    (s t ty : ℕ) (p : FrameParser) (h : H3)
    → let r = for_frames control_frame p (h.goaway, []) in
      Quiet s h (
        record { streams = insert_key t (server_uni (some ty) r.1) h.streams; goaway = r.0.0 },
        r.0.1,
      )
control-Quiet s t ty p h =
    let r = for_frames control_frame p (h.goaway, []) in
    (
      for_frames_keeps control_frame (λ r. count_for s r.1 ≡ 0) (control_frame-count s) p
          (h.goaway, []) (count_none s),
      insert-Quiet s t (server_uni (some ty) r.1) h.streams refl,
    )

process-Quiet :
    (s t : ℕ) (ty : Option ℕ) (p : FrameParser) (h : H3) → Quiet s h (process_server_uni t ty p h)
unfolding process_server_uni
process-Quiet s t none p h = (count_none s, omega arith)
process-Quiet s t (some ty) p h = elim (Bool-cases (ty == stream_type_control)) [
  | inl e ↦ rw e (control-Quiet s t ty p h)
  | inr e ↦ rw e (count_none s, omega arith)
]

Quiet-trans :
    (s : ℕ) (h h' : H3) (r : H3 × List H3Event)
    → open_in s h' ≤ open_in s h
    → Quiet s h' r
    → Quiet s h r
Quiet-trans s h h' r le (c, q) = (c, omega arith)

classify-Quiet : (s t ty : ℕ) (p : FrameParser) (h : H3) → Quiet s h (classify t ty p h)
unfolding classify
classify-Quiet s t ty p h = elim (Bool-cases (ty == stream_type_control)) [
  | inl e ↦ rw e (
      Quiet-trans s h (insert_stream t (server_uni (some ty) p) h)
        (process_server_uni t (some ty) p (insert_stream t (server_uni (some ty) p) h))
        (insert-Quiet s t (server_uni (some ty) p) h.streams refl)
        (process-Quiet s t (some ty) p (insert_stream t (server_uni (some ty) p) h)))
  | inr e ↦ rw e (count_none s, insert-Quiet s t sink h.streams refl)
]

pub remove_le :
    (s t : ℕ) (m : List (ℕ × StreamState))
    → open_count (find_key s (remove_key t m)) ≤ open_count (find_key s m)
remove_le s t m = elim (Bool-cases (t == s)) [
  | inl e ↦ rw (find-remove t s m, e) (omega arith)
  | inr e ↦ rw (find-remove t s m, e) (omega arith)
]

feed_untyped-Quiet :
    (s t : ℕ) (bytes : List ℕ) (p : FrameParser) (h : H3) → Quiet s h (feed_untyped t bytes p h)
unfolding feed_untyped
feed_untyped-Quiet s t [] p h = (count_none s, insert-Quiet s t (server_uni none p) h.streams refl)
feed_untyped-Quiet s t (b ∷ bytes) p h = elim (Option-cases (varint_decode (b ∷ bytes))) [
  | inr ((ty, n), e) ↦
      rw (e, feed_untyped) (classify-Quiet s t ty (feed_parser p (drop n (b ∷ bytes))) h)
  | inl e ↦ elim (Option-cases (varint_decode (feed_parser p (b ∷ bytes)).buf)) [
    | inl e' ↦
        rw (e, feed_untyped, e')
          (
            count_none s,
            insert-Quiet s t (server_uni none (feed_parser p (b ∷ bytes))) h.streams refl,
          )
    | inr ((ty, n), e') ↦
        rw (e, feed_untyped, e')
          (Quiet-trans s h (remove_stream t h)
            (classify t ty (record { buf = drop n (feed_parser p (b ∷ bytes)).buf })
              (remove_stream t h))
            (remove_le s t h.streams)
            (classify-Quiet s t ty (record { buf = drop n (feed_parser p (b ∷ bytes)).buf })
              (remove_stream t h)))
  ]
]

-- An open request stays open when it is fed.
response-Quiet :
    (s t : ℕ) (p p' : FrameParser) (r r' : Reply) (h : H3)
    → find_key t h.streams ≡ some (response p r)
    → Quiet s h (insert_stream t (response p' r') h, [])
response-Quiet s t p p' r r' h e = elim (Bool-cases (t == s)) [
  | inl same ↦
      let same' : t ≡ s = (==_iff t s).0 same in
      (
        count_none s,
        rw (find-insert t s (response p' r') h.streams, same, ← same', e) (omega arith),
      )
  | inr other ↦ (count_none s, rw (find-insert t s (response p' r') h.streams, other) (omega arith))
]

feed_state-Quiet :
    (s t : ℕ) (bytes : List ℕ) (state : StreamState) (h : H3)
    → entry_state (find_key t h.streams) ≡ state
    → Quiet s h (feed_state t bytes state h)
unfolding feed_state
feed_state-Quiet s t bytes (server_uni none p) h e = feed_untyped-Quiet s t bytes p h
feed_state-Quiet s t bytes (server_uni (some ty) p) h e =
    let p' = feed_parser p bytes in
    Quiet-trans s h (insert_stream t (server_uni (some ty) p') h)
      (process_server_uni t (some ty) p' (insert_stream t (server_uni (some ty) p') h))
      (insert-Quiet s t (server_uni (some ty) p') h.streams refl)
      (process-Quiet s t (some ty) p' (insert_stream t (server_uni (some ty) p') h))
feed_state-Quiet s t bytes sink h e = (count_none s, omega arith)
feed_state-Quiet s t bytes (response p r) h e =
    response-Quiet s t p _ r _ h (registered (find_key t h.streams) p r e)
  where
    registered :
        (o : Option StreamState) (p : FrameParser) (r : Reply)
        → entry_state o ≡ response p r
        → o ≡ some (response p r)
    registered none p r e = cc
    registered (some state) p r e = cc

-- Feeding any stream pushes no event about any stream, and opens no request.
pub feed-Quiet : (s t : ℕ) (bytes : List ℕ) (h : H3) → Quiet s h (feed t bytes h)
unfolding feed
feed-Quiet s t bytes h = feed_state-Quiet s t bytes (entry_state (find_key t h.streams)) h refl
