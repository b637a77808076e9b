-- ===== src/Worker/Connection/Deadlines.antt =====
-- worker.rs: the queries of a worker and their deadlines over any turns of its loop.
use nix_config.Common.{
  ℕ, ◌+◌, ◌*◌, ◌≤◌, ◌<◌, ◌≡◌, ◌⊎◌, inl, inr, refl, sym, ap, ◌∙◌, subst, List, [], ◌∷◌, Bool, true,
  false, not, ◌&&◌, chained, some-injective, none≢some, if-cases, Bool-cases, Option, none, some,
  if◌then◌else◌, leb, All, arith,
}
use nix_config.Shared.Upstream.{UpstreamSet}
use nix_config.Shared.Scores.{ScoreSlot}
use nix_config.H3.Streams.{H3Event, responded, failed, goaway_event}
use nix_config.Worker.Dispatch.{Config}
use nix_config.Worker.Requests.{
  QueuedQuery, Requests, QuicReply, Link, receive, flush_front, apply_event, expire_pending,
  expire_queue, fail_all_pending,
}
use nix_config.Worker.Requests.Queue.{
  Ascending, Queued, Queued-later, Queued-tail, receive-Queued, flush_front_queue,
  apply_event_queue, fail_all_pending_queue,
}
use nix_config.Worker.Requests.Queue.Deadlines.{
  InTime, PendingInTime, expire_pending-InTime, expire_pending_queue, expire_front-InTime,
}
use nix_config.Worker.Connection.{
  Worker, ConnectReply, send_preamble, connect, connect_and_preamble, drop_conn, count_failure,
  fail_pending, lose_connection, drop_drained, close_stale, settle, reconnect,
}
use nix_config.Worker.Connection.Events.{
  forget_failures, begin_requests, QuicEvent, connected, connection_lost, readable, other_event,
  flush_queue, flush_loop, on_connected, quic_event, quic_events, on_goaway, stream_readable,
  h3_event, h3_events, process_quic_events, poll_events, no_pending,
}
use nix_config.Worker.Connection.Housekeeping.{
  adopt, expire, publish_score, drain_goaway, migrate, move_to, housekeeping,
}
use nix_config.Worker.Connection.Turns.{
  Datagram, Ready, dns_ready, quic_ready, timer_ready, turn_ends, drain_loop, link_of, drain_dns,
  turn, turns, start, new_runtime, before_connect,
}
use nix_config.Worker.Connection.Steady.Runs.{InOrder, last_instant}
pub mod Answered

pub drain_loop-Queued :
    (cfg : Config) (link : Link) (now : ℕ) (ds : List Datagram) (s s' : Requests)
    → Queued (now + cfg.timeout) s.queue
    → drain_loop cfg link now ds s ≡ some s'
    → Queued (now + cfg.timeout) s'.queue
unfolding drain_loop
drain_loop-Queued cfg link now [] s s' h e =
    subst (λ t. Queued (now + cfg.timeout) t.queue) (some-injective e) h
drain_loop-Queued cfg link now (d ∷ ds) s s' h e =
    let (t, received, rest) =
      chained (receive cfg link d.reply d.query d.peer now s) (λ t. drain_loop cfg link now ds t) s'
        e in
    drain_loop-Queued cfg link now ds t s'
      (receive-Queued cfg link d.reply d.query d.peer now s t h received) rest

flush_loop-empties :
    (cfg : Config) (quic : ℕ → QuicReply) (now i : ℕ) (queue : List QueuedQuery) (s s' : Requests)
    → s.queue ≡ queue
    → flush_loop cfg quic now i queue s ≡ some s'
    → s'.queue ≡ []
unfolding flush_loop
flush_loop-empties cfg quic now i [] s s' same e =
    ap (λ (t : Requests). t.queue) (sym (some-injective e)) ∙ same
flush_loop-empties cfg quic now i (q ∷ queue) s s' same e =
    let (t, sent, rest) =
      chained (flush_front cfg (quic i) now (q ∷ queue) s)
        (λ t. flush_loop cfg quic now (i + 1) queue t) s' e in
    flush_loop-empties cfg quic now (i + 1) queue t s'
      (flush_front_queue cfg (quic i) now q queue s t sent) rest

-- The queue of a worker, in the order of its deadlines.
abbrev pub WorkerQueued : ℕ → Worker → Type 0
WorkerQueued t w = Queued t w.requests.queue

flush_queue-Queued :
    (cfg : Config) (quic : ℕ → QuicReply) (now t : ℕ) (w w' : Worker)
    → flush_queue cfg quic now w ≡ some w'
    → WorkerQueued t w'
unfolding flush_queue
flush_queue-Queued cfg quic now t w w' e =
    let (s, flushed, done) =
      chained (flush_loop cfg quic now 0 w.requests.queue w.requests)
        (λ s. some (record w { requests = s })) w' e in
    subst (WorkerQueued t) (some-injective done) (
      subst (Queued t)
        (sym (flush_loop-empties cfg quic now 0 w.requests.queue w.requests s refl flushed))
        (unfold Queued Ascending in (tt, tt)))

on_connected-Queued :
    (cfg : Config) (control : Bool) (quic : ℕ → QuicReply) (now t : ℕ) (w w' : Worker)
    → WorkerQueued t w
    → on_connected cfg control quic now w ≡ some w'
    → WorkerQueued t w'
unfolding on_connected
on_connected-Queued cfg control quic now t w w' h e =
    let waits = flush_queue cfg quic now (begin_requests control (forget_failures w)) in
    elim (if-cases w.h3_ready (some (forget_failures w)) waits (some w') e) [
      | inl (ready, same) ↦
          subst (WorkerQueued t) (some-injective same) (unfold forget_failures in h)
      | inr (waits, flushed) ↦
          flush_queue-Queued cfg quic now t (begin_requests control (forget_failures w)) w' flushed
    ]

lose_connection_queue :
    (now : ℕ) (app : Bool) (w : Worker)
    → (lose_connection now app w).requests.queue ≡ w.requests.queue
unfolding lose_connection drop_conn fail_pending count_failure
lose_connection_queue now true w = fail_all_pending_queue w.requests
lose_connection_queue now false w = fail_all_pending_queue w.requests

pub quic_events-Queued :
    (cfg : Config) (now t : ℕ) (evs : List QuicEvent) (w : Worker) (out : List H3Event)
    (r : Worker × List H3Event)
    → WorkerQueued t w
    → quic_events cfg now evs (w, out) ≡ some r
    → WorkerQueued t r.0
unfolding quic_events quic_event
quic_events-Queued cfg now t [] w out r h e = subst (λ r. WorkerQueued t r.0) (some-injective e) h
quic_events-Queued cfg now t (connected control quic ∷ evs) w out r h e =
    let (v, done, rest) =
      chained (quic_event cfg now (connected control quic) (w, out))
        (λ v. quic_events cfg now evs v) r e in
    let (w', made, same) =
      chained (on_connected cfg control quic now w) (λ w'. some (w', out)) v done in
    quic_events-Queued cfg now t evs w' out r
      (on_connected-Queued cfg control quic now t w w' h made)
      (subst (λ v. quic_events cfg now evs v ≡ some r) (sym (some-injective same)) rest)
quic_events-Queued cfg now t (connection_lost app ∷ evs) w out r h e =
    quic_events-Queued cfg now t evs (lose_connection now app w) out r
      (subst (Queued t) (sym (lose_connection_queue now app w)) h) e
quic_events-Queued cfg now t (readable stream reply ∷ evs) w out r h e =
    let read = stream_readable stream reply (w, out) in
    quic_events-Queued cfg now t evs read.0 read.1 r (unfold stream_readable in h) e
quic_events-Queued cfg now t (other_event ∷ evs) w out r h e =
    quic_events-Queued cfg now t evs w out r h e

on_goaway_queue : (now : ℕ) (w : Worker) → (on_goaway now w).requests.queue ≡ w.requests.queue
unfolding on_goaway
on_goaway_queue now w = ground arith

pub h3_events_queue :
    (now : ℕ) (evs : List H3Event) (w : Worker)
    → (h3_events now evs w).requests.queue ≡ w.requests.queue
unfolding h3_events h3_event
h3_events_queue now [] w = refl
h3_events_queue now (responded stream body ∷ evs) w =
    h3_events_queue now evs _ ∙ apply_event_queue now (responded stream body) w.requests
h3_events_queue now (failed stream ∷ evs) w =
    h3_events_queue now evs _ ∙ apply_event_queue now (failed stream) w.requests
h3_events_queue now (goaway_event ∷ evs) w =
    h3_events_queue now evs (on_goaway now w) ∙ on_goaway_queue now w
