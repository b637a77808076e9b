-- ===== src/Worker/Connection/Steady.antt =====
-- worker.rs: the connection of a worker, or the instant at which it makes one.
use nix_config.Common.{
  ℕ, ◌+◌, ◌*◌, ◌^◌, ◌-◌, ◌≤◌, ◌<◌, ◌≡◌, ◌⊎◌, inl, inr, refl, sym, ◌∙◌, subst, ap, List, [], ◌∷◌,
  Bool, true, false, Bool-cases, if-cases, chained, some-injective, Option-cases, Option, none,
  some, if◌then◌else◌, min, leb, arith,
}
use nix_config.Shared.Upstream.{UpstreamSet}
use nix_config.Shared.Scores.{ScoreSlot}
use nix_config.H3.Streams.{H3Event, responded, failed, goaway_event}
use nix_config.Worker.Dispatch.{Config}
use nix_config.Worker.Migration.{second, migration_target}
use nix_config.Worker.Requests.{QuicReply}
use nix_config.Worker.Connection.{
  Worker, ConnectReply, Runtime, send_preamble, connect, connect_and_preamble, drop_conn,
  count_failure, fail_pending, lose_connection, get_or_insert, drop_drained, close_stale, settle,
  reconnect,
}
use nix_config.Worker.Connection.Events.{
  forget_failures, begin_requests, QuicEvent, connected, connection_lost, readable, other_event,
  flush_queue, flush_loop, on_connected, quic_event, quic_events, on_goaway, stream_readable,
  h3_event, h3_events, process_quic_events, no_pending, poll_events,
}
use nix_config.Worker.Connection.Housekeeping.{
  adopt, expire, publish_score, drain_goaway, migrate, move_to, housekeeping,
}
use nix_config.Worker.Connection.Turns.{
  Datagram, Ready, dns_ready, quic_ready, timer_ready, turn_ends, drain_loop, link_of, drain_dns,
  turn, turns, start, new_runtime,
}
pub mod Events
pub mod Runs
pub mod Reconnects

-- Without a connection the reconnect is set; where it is set, it is at most five seconds away.
unfoldable pub Due : ℕ → Bool → Option ℕ → Type 0
Due now has_conn none = has_conn ≡ true
Due now has_conn (some t) = t ≤ now + 5 * second

abbrev pub is_sent : Option Bool → Bool
is_sent none = false
is_sent (some ok) = true

unfoldable pub SteadyLink : ℕ → Bool → Bool → Bool → Option Bool → Option ℕ → ℕ → Type 0
SteadyLink now has_conn goaway h3_ready preamble reconnect_at backoff =
    Due now has_conn reconnect_at
    × (backoff ≤ 5 * second)
    × ((goaway ≡ false) ⊎ (has_conn ≡ true))
    × ((h3_ready ≡ false) ⊎ ((has_conn ≡ true) × (is_sent preamble ≡ true)))

abbrev pub Steady : ℕ → Worker → Type 0
Steady now w = SteadyLink now w.has_conn w.goaway w.h3_ready w.preamble w.reconnect_at w.backoff

Due-later : (now later : ℕ) (c : Bool) (o : Option ℕ) → now ≤ later → Due now c o → Due later c o
unfolding Due
Due-later now later c none le d = d
Due-later now later c (some t) le d = omega arith

pub Steady-later : (now later : ℕ) (w : Worker) → now ≤ later → Steady now w → Steady later w
unfolding SteadyLink
Steady-later now later w le (due, backoff, goaway, ready) =
    (Due-later now later w.has_conn w.reconnect_at le due, backoff, goaway, ready)

pub lose-Steady :
    (now : ℕ) (app : Bool) (w : Worker) → Steady now w → Steady now (lose_connection now app w)
unfolding SteadyLink Due lose_connection drop_conn fail_pending count_failure
lose-Steady now true w s = ground arith
lose-Steady now false w s = ground arith

pub drop_drained-Steady :
    (now : ℕ) (d : Bool) (w : Worker) → Steady now w → Steady now (drop_drained now d w)
unfolding SteadyLink Due drop_drained drop_conn fail_pending count_failure get_or_insert
drop_drained-Steady now d w s = ground arith

pub settle-Steady :
    (now : ℕ) (reply : ConnectReply) (w : Worker)
    → w.backoff ≤ 5 * second
    → w.goaway ≡ false
    → w.h3_ready ≡ false
    → Steady now (settle now (connect_and_preamble reply w))
unfolding SteadyLink Due settle connect_and_preamble connect send_preamble count_failure
settle-Steady now reply w b g r = ground arith

pub on_goaway-Steady : (now : ℕ) (w : Worker) → Steady now w → Steady now (on_goaway now w)
unfolding SteadyLink Due on_goaway
on_goaway-Steady now w s = ground arith

pub close_stale-settle-Steady :
    (now : ℕ) (reply : ConnectReply) (w : Worker)
    → Steady now w
    → Steady now (settle now (connect_and_preamble reply (close_stale w)))
unfolding SteadyLink
close_stale-settle-Steady now reply w (due, b, g, r) =
    settle-Steady now reply (close_stale w) (unfold close_stale drop_conn in ground arith)
      (unfold close_stale drop_conn in ground arith) (unfold close_stale drop_conn in ground arith)

pub reconnect-Steady :
    (now : ℕ) (reply : ConnectReply) (w : Worker)
    → Steady now w
    → Steady now (reconnect now reply w)
unfolding reconnect
reconnect-Steady now reply w s = elim (Option-cases w.reconnect_at) [
  | inl never ↦ rw (reconnect, never) s
  | inr (t, set) ↦ elim (Bool-cases (leb t now)) [
    | inl due ↦ rw (reconnect, set, due) (close_stale-settle-Steady now reply w s)
    | inr later ↦ rw (reconnect, set, later) s
  ]
]

pub expire-Steady :
    (now : ℕ) (changed : Option UpstreamSet) (w : Worker)
    → Steady now w
    → Steady now (expire now changed w)
unfolding expire adopt
expire-Steady now none w s = s
expire-Steady now (some new) w s = elim (Bool-cases (no_pending new.addrs)) [
  | inl empty ↦ rw (expire, empty) s
  | inr some_addrs ↦ rw (expire, some_addrs) s
]

publish_score-Steady :
    (now secs : ℕ) (w : Worker) → Steady now w → Steady now (publish_score now secs w)
unfolding publish_score
publish_score-Steady now secs w s = ground arith

pub drain_goaway-Steady : (now : ℕ) (w : Worker) → Steady now w → Steady now (drain_goaway now w)
unfolding drain_goaway SteadyLink Due
drain_goaway-Steady now w s = ground arith

pub migrate-Steady : (now secs : ℕ) (w : Worker) → Steady now w → Steady now (migrate now secs w)
unfolding migrate move_to SteadyLink Due
migrate-Steady now secs w s = ground arith
