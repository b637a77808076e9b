-- ===== src/Worker/Connection/Events.antt =====
-- worker.rs: `process_quic_events`, with the events of the library as a list.
use nix_config.Common.{
  ℕ, ◌+◌, List, [], ◌∷◌, ◌++◌, Bool, true, false, Option, none, some, if◌then◌else◌,
}
use nix_config.Quic.{ReadReply, read_stream}
use nix_config.H3.Streams.{H3, H3Event, responded, failed, goaway_event, feed, finish, reset}
use nix_config.Worker.Dispatch.{Config}
use nix_config.Worker.Requests.{QueuedQuery, Requests, QuicReply, flush_front, apply_event}
use nix_config.Worker.Connection.{Worker, send_preamble, lose_connection}

-- Each with what the library answers while it is handled: whether the control stream opens and takes the
-- preamble, and the reply to each dispatch; whether the peer closed at the application layer; what is
-- read. The events that are skipped are one.
pub data QuicEvent : Type 0 where
  connected : Bool → (ℕ → QuicReply) → QuicEvent
  connection_lost : Bool → QuicEvent
  readable : ℕ → ReadReply → QuicEvent
  other_event : QuicEvent

-- The loop of `flush_queue`; query `i` of the queue gets reply `i`.
unfoldable pub flush_loop :
    Config → (ℕ → QuicReply) → ℕ → ℕ → List QueuedQuery → Requests → Option Requests
flush_loop cfg quic now i [] s = some s
flush_loop cfg quic now i (q ∷ queue) s = elim (flush_front cfg (quic i) now (q ∷ queue) s) [
  | none ↦ none
  | some s' ↦ flush_loop cfg quic now (i + 1) queue s'
]

unfoldable pub flush_queue : Config → (ℕ → QuicReply) → ℕ → Worker → Option Worker
flush_queue cfg quic now w = elim (flush_loop cfg quic now 0 w.requests.queue w.requests) [
  | none ↦ none
  | some s ↦ some (record w { requests = s })
]

unfoldable pub forget_failures : Worker → Worker
forget_failures w = record w {
  backoff = 0;
  reconnect_at = none;
  rt = record w.rt { fail_streak = 0 };
}

unfoldable pub begin_requests : Bool → Worker → Worker
begin_requests control w = record (send_preamble control w) { h3_ready = true }

unfoldable pub on_connected : Config → Bool → (ℕ → QuicReply) → ℕ → Worker → Option Worker
on_connected cfg control quic now w =
    if w.h3_ready
    then some (forget_failures w)
    else flush_queue cfg quic now (begin_requests control (forget_failures w))

-- `Readable`, on the H3 state and the events that are collected.
abbrev pub feed_chunk : ℕ → List ℕ → H3 × List H3Event → H3 × List H3Event
feed_chunk stream chunk (h, events) = let r = feed stream chunk h in (r.0, events ++ r.1)

unfoldable pub end_read : ℕ → (H3 × List H3Event) × Bool × Bool → H3 × List H3Event
end_read stream ((h, events), eof, read_err) =
    let broken = reset stream h in
    let ended = finish stream h in
    if read_err
    then (broken.0, events ++ broken.1)
    else if eof
    then (ended.0, events ++ ended.1)
    else (h, events)

unfoldable pub stream_readable : ℕ → ReadReply → Worker × List H3Event → Worker × List H3Event
stream_readable stream reply (w, events) =
    let r =
      end_read stream (read_stream w.has_conn reply (feed_chunk stream) (w.requests.h3, events)) in
    (record w { requests = record w.requests { h3 = r.0 } }, r.1)

unfoldable pub quic_event :
    Config → ℕ → QuicEvent → Worker × List H3Event → Option (Worker × List H3Event)
quic_event cfg now (connected control quic) (w, events) =
    elim (on_connected cfg control quic now w) [ none ↦ none | some w' ↦ some (w', events) ]
quic_event cfg now (connection_lost application_closed) (w, events) =
    some (lose_connection now application_closed w, events)
quic_event cfg now (readable stream reply) s = some (stream_readable stream reply s)
quic_event cfg now other_event s = some s

unfoldable pub quic_events :
    Config → ℕ → List QuicEvent → Worker × List H3Event → Option (Worker × List H3Event)
quic_events cfg now [] s = some s
quic_events cfg now (ev ∷ evs) s = elim (quic_event cfg now ev s) [
  | none ↦ none
  | some s' ↦ quic_events cfg now evs s'
]

abbrev pub no_pending {ℓ} : {A : Type ℓ} → List A → Bool
no_pending [] = true
no_pending (p ∷ m) = false

unfoldable pub on_goaway : ℕ → Worker → Worker
on_goaway now w =
    if w.has_conn
    then (if no_pending w.requests.pending
        then record w { goaway = true; reconnect_at = some now }
        else record w { goaway = true })
    else w

unfoldable pub h3_event : ℕ → H3Event → Worker → Worker
h3_event now (responded stream body) w = record w {
  requests = apply_event now (responded stream body) w.requests;
}
h3_event now (failed stream) w = record w { requests = apply_event now (failed stream) w.requests }
h3_event now goaway_event w = on_goaway now w

unfoldable pub h3_events : ℕ → List H3Event → Worker → Worker
h3_events now [] w = w
h3_events now (ev ∷ evs) w = h3_events now evs (h3_event now ev w)

-- `Quic::poll_events`: without a connection there is none.
abbrev pub poll_events : Bool → List QuicEvent → List QuicEvent
poll_events has_conn evs = if has_conn then evs else []

unfoldable pub process_quic_events : Config → ℕ → List QuicEvent → Worker → Option Worker
process_quic_events cfg now evs w =
    elim (quic_events cfg now (poll_events w.has_conn evs) (w, [])) [
      | none ↦ none
      | some (w', events) ↦ some (h3_events now events w')
    ]
