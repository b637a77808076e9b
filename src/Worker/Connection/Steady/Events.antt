-- ===== src/Worker/Connection/Steady/Events.antt =====
-- worker.rs: the connection of a worker over the events of a turn of its loop.
use nix_config.Common.{
  ℕ, ◌≡◌, inl, inr, sym, ◌∙◌, subst, List, [], ◌∷◌, Bool, true, false, if-cases, chained,
  some-injective, Option, some, arith,
}
use nix_config.Shared.Upstream.{UpstreamSet}
use nix_config.H3.Streams.{H3Event, responded, failed, goaway_event}
use nix_config.Worker.Dispatch.{Config}
use nix_config.Worker.Requests.{QuicReply}
use nix_config.Worker.Connection.{Worker, ConnectReply, send_preamble, drop_conn, lose_connection}
use nix_config.Worker.Connection.Events.{
  forget_failures, begin_requests, QuicEvent, connected, connection_lost, readable, other_event,
  flush_queue, flush_loop, on_connected, quic_event, quic_events, stream_readable, h3_event,
  h3_events, process_quic_events, poll_events,
}
use nix_config.Worker.Connection.Housekeeping.{housekeeping}
use nix_config.Worker.Connection.Turns.{
  Datagram, Ready, dns_ready, quic_ready, timer_ready, turn_ends, drain_loop, link_of, drain_dns,
  turn,
}
use nix_config.Worker.Connection.Steady.{
  publish_score-Steady, drain_goaway-Steady, migrate-Steady, expire-Steady, reconnect-Steady, Due,
  SteadyLink, Steady, lose-Steady, drop_drained-Steady, on_goaway-Steady, reconnect-Steady,
  expire-Steady, drain_goaway-Steady, migrate-Steady,
}

-- With its connection up, and steady.
abbrev Up : ℕ → Worker → Type 0
Up now w = Steady now w × (w.has_conn ≡ true)

flush_queue-Up :
    (cfg : Config) (quic : ℕ → QuicReply) (now : ℕ) (w w' : Worker)
    → Up now w
    → flush_queue cfg quic now w ≡ some w'
    → Up now w'
unfolding flush_queue
flush_queue-Up cfg quic now w w' s e =
    let (t, flushed, done) =
      chained (flush_loop cfg quic now 0 w.requests.queue w.requests)
        (λ t. some (record w { requests = t })) w' e in
    subst (Up now) (some-injective done) s

begun_Up :
    (now : ℕ) (control : Bool) (w : Worker)
    → w.has_conn ≡ true
    → Up now (begin_requests control (forget_failures w))
unfolding begin_requests forget_failures send_preamble SteadyLink Due
begun_Up now control w up = ground arith

forgotten_Up :
    (now : ℕ) (w : Worker)
    → w.has_conn ≡ true
    → w.h3_ready ≡ true
    → Steady now w
    → Up now (forget_failures w)
unfolding forget_failures SteadyLink Due
forgotten_Up now w up ready s = ground arith

on_connected-Up :
    (cfg : Config) (control : Bool) (quic : ℕ → QuicReply) (now : ℕ) (w w' : Worker)
    → w.has_conn ≡ true
    → Steady now w
    → on_connected cfg control quic now w ≡ some w'
    → Up now w'
unfolding on_connected
on_connected-Up cfg control quic now w w' up s e =
    let waits = flush_queue cfg quic now (begin_requests control (forget_failures w)) in
    elim (if-cases w.h3_ready (some (forget_failures w)) waits (some w') e) [
      | inl (ready, same) ↦ subst (Up now) (some-injective same) (forgotten_Up now w up ready s)
      | inr (waits, flushed) ↦
          flush_queue-Up cfg quic now (begin_requests control (forget_failures w)) w'
            (begun_Up now control w up) flushed
    ]

-- The library tells of no connection after it has told that the connection is lost.
unfoldable pub Coherent : Bool → List QuicEvent → Type 0
Coherent up [] = Unit
Coherent up (connected control quic ∷ evs) = (up ≡ true) × Coherent up evs
Coherent up (connection_lost app ∷ evs) = Coherent false evs
Coherent up (readable stream reply ∷ evs) = Coherent up evs
Coherent up (other_event ∷ evs) = Coherent up evs

quic_events-Steady :
    (cfg : Config) (now : ℕ) (evs : List QuicEvent) (w : Worker) (out : List H3Event) (w' : Worker)
    (out' : List H3Event)
    → Coherent w.has_conn evs
    → Steady now w
    → quic_events cfg now evs (w, out) ≡ some (w', out')
    → Steady now w'
unfolding quic_events quic_event Coherent
quic_events-Steady cfg now [] w out w' out' c s e = subst (λ r. Steady now r.0) (some-injective e) s
quic_events-Steady cfg now (connected control quic ∷ evs) w out w' out' (up, c) s e =
    let (t, done, rest) =
      chained (quic_event cfg now (connected control quic) (w, out))
        (λ t. quic_events cfg now evs t) (w', out') e in
    let (t', done', same) =
      chained (on_connected cfg control quic now w) (λ t'. some (t', out)) t done in
    let r = on_connected-Up cfg control quic now w t' up s done' in
    quic_events-Steady cfg now evs t' out w' out' (subst (λ b. Coherent b evs) (up ∙ sym r.1) c) r.0
      (subst (λ t. quic_events cfg now evs t ≡ some (w', out')) (sym (some-injective same)) rest)
quic_events-Steady cfg now (connection_lost app ∷ evs) w out w' out' c s e =
    quic_events-Steady cfg now evs (lose_connection now app w) out w' out'
      (unfold lose_connection drop_conn in c) (lose-Steady now app w s) e
quic_events-Steady cfg now (readable stream reply ∷ evs) w out w' out' c s e =
    let r = stream_readable stream reply (w, out) in
    quic_events-Steady cfg now evs r.0 r.1 w' out' (unfold stream_readable in c)
      (unfold stream_readable in s) e
quic_events-Steady cfg now (other_event ∷ evs) w out w' out' c s e =
    quic_events-Steady cfg now evs w out w' out' c s e

h3_events-Steady :
    (now : ℕ) (evs : List H3Event) (w : Worker) → Steady now w → Steady now (h3_events now evs w)
unfolding h3_events h3_event
h3_events-Steady now [] w s = s
h3_events-Steady now (responded stream body ∷ evs) w s = h3_events-Steady now evs _ s
h3_events-Steady now (failed stream ∷ evs) w s = h3_events-Steady now evs _ s
h3_events-Steady now (goaway_event ∷ evs) w s =
    h3_events-Steady now evs _ (on_goaway-Steady now w s)

process-Steady :
    (cfg : Config) (now : ℕ) (evs : List QuicEvent) (w w' : Worker)
    → Coherent true evs
    → Steady now w
    → process_quic_events cfg now evs w ≡ some w'
    → Steady now w'
unfolding process_quic_events
process-Steady cfg now evs w w' c s e =
    let (r, done, applied) =
      chained (quic_events cfg now (poll_events w.has_conn evs) (w, []))
        (λ r. some (h3_events now r.1 r.0)) w' e in
    subst (Steady now) (some-injective applied) (
      h3_events-Steady now r.1 r.0 (
        quic_events-Steady cfg now (poll_events w.has_conn evs) w [] r.0 r.1 (polled w.has_conn c) s
          done))
  where
    polled : (up : Bool) → Coherent true evs → Coherent up (poll_events up evs)
    polled true c = c
    polled false c = unfold Coherent in tt

housekeeping-Steady :
    (now secs : ℕ) (changed : Option UpstreamSet) (reply : ConnectReply) (w : Worker)
    → Steady now w
    → Steady now (housekeeping now secs changed reply w)
unfolding housekeeping
housekeeping-Steady now secs changed reply w s = reconnect-Steady now reply _ (
    migrate-Steady now secs _
      (drain_goaway-Steady now _ (publish_score-Steady now secs _ (expire-Steady now changed w s))))

drain_dns-Steady :
    (cfg : Config) (now : ℕ) (datagrams : List Datagram) (w w' : Worker)
    → Steady now w
    → drain_dns cfg now datagrams w ≡ some w'
    → Steady now w'
unfolding drain_dns
drain_dns-Steady cfg now datagrams w w' s e =
    let (t, drained, done) =
      chained (drain_loop cfg (link_of w) now datagrams w.requests)
        (λ t. some (record w { requests = t })) w' e in
    subst (Steady now) (some-injective done) s

-- Where the library tells of events, they are coherent.
abbrev pub CoherentReady : Ready → Type 0
CoherentReady (quic_ready evs) = Coherent true evs
CoherentReady ready = Unit

pub turn-Steady :
    (cfg : Config) (now : ℕ) (ready : Ready) (w w' : Worker)
    → CoherentReady ready
    → Steady now w
    → turn cfg now ready w ≡ some w'
    → Steady now w'
unfolding turn
turn-Steady cfg now (dns_ready datagrams) w w' c s e = drain_dns-Steady cfg now datagrams w w' s e
turn-Steady cfg now (quic_ready evs) w w' c s e = process-Steady cfg now evs w w' c s e
turn-Steady cfg now (timer_ready secs changed reply) w w' c s e =
    subst (Steady now) (some-injective e) (housekeeping-Steady now secs changed reply w s)
turn-Steady cfg now (turn_ends is_drained) w w' c s e =
    subst (Steady now) (some-injective e) (drop_drained-Steady now is_drained w s)
