-- ===== src/Worker/Connection/Turns.antt =====
-- worker.rs: the turns of the event loop of `run`.
use nix_config.Common.{ℕ, false, get_elem?, List, [], ◌∷◌, Bool, Option, none, some}
use nix_config.Shared.Upstream.{UpstreamSet, slot_for}
use nix_config.Shared.Scores.{ScoreSlot}
use nix_config.H3.Streams.{new_h3}
use nix_config.Worker.Quality.{new_quality}
use nix_config.Worker.Dispatch.{Config}
use nix_config.Worker.Requests.{Requests, QuicReply, Link, receive}
use nix_config.Worker.Connection.{
  Worker, ConnectReply, Runtime, connect_and_preamble, unwrap_or, drop_drained,
}
use nix_config.Worker.Connection.Events.{QuicEvent, process_quic_events}
use nix_config.Worker.Connection.Housekeeping.{housekeeping}

-- `Runtime::new`; `none` is the panic on an index out of bounds.
unfoldable pub new_runtime : UpstreamSet → ℕ → ℕ → Option Runtime
new_runtime set child_idx now =
    let slot = unwrap_or (slot_for set child_idx) 0 in
    elim (get_elem? set.addrs slot) [
      | none ↦ none
      | some addr ↦ some (record {
        child_idx = child_idx;
        fail_streak = 0;
        set = set;
        my_remote = addr;
        slot = slot;
        last_migrate = now;
        last_score = now;
      })
    ]

abbrev pub before_connect : List ScoreSlot → Runtime → Worker
before_connect scores rt = record {
  requests = record { h3 = new_h3; pending = []; queue = []; quality = new_quality; sent = [] };
  has_conn = false;
  zero_rtt_offered = false;
  preamble = none;
  goaway = false;
  h3_ready = false;
  reconnect_at = none;
  backoff = 0;
  rt = rt;
  scores = scores;
}

abbrev pub after_connect : Worker × Option Bool → Option Worker
after_connect (w, none) = none
after_connect (w, some ready) = some (record w { h3_ready = ready })

-- `run` up to its loop; `none` is an error or a panic.
unfoldable pub start : UpstreamSet → ℕ → ℕ → ConnectReply → List ScoreSlot → Option Worker
start set child_idx now reply scores = elim (new_runtime set child_idx now) [
  | none ↦ none
  | some rt ↦ after_connect (connect_and_preamble reply (before_connect scores rt))
]

-- A query with its peer, and what the library answers where it is dispatched.
pub record Datagram : Type 0 where
  pub query : List ℕ
  pub peer : ℕ
  pub reply : QuicReply

unfoldable pub drain_loop : Config → Link → ℕ → List Datagram → Requests → Option Requests
drain_loop cfg link now [] s = some s
drain_loop cfg link now (d ∷ datagrams) s = elim (receive cfg link d.reply d.query d.peer now s) [
  | none ↦ none
  | some s' ↦ drain_loop cfg link now datagrams s'
]

abbrev pub link_of : Worker → Link
link_of w = record { goaway = w.goaway; has_conn = w.has_conn; h3_ready = w.h3_ready }

unfoldable pub drain_dns : Config → ℕ → List Datagram → Worker → Option Worker
drain_dns cfg now datagrams w = elim (drain_loop cfg (link_of w) now datagrams w.requests) [
  | none ↦ none
  | some s ↦ some (record w { requests = s })
]

-- One ready file descriptor of the poller, or the check that ends a turn.
pub data Ready : Type 0 where
  dns_ready : List Datagram → Ready
  quic_ready : List QuicEvent → Ready
  timer_ready : ℕ → Option UpstreamSet → ConnectReply → Ready
  turn_ends : Bool → Ready

unfoldable pub turn : Config → ℕ → Ready → Worker → Option Worker
turn cfg now (dns_ready datagrams) w = drain_dns cfg now datagrams w
turn cfg now (quic_ready evs) w = process_quic_events cfg now evs w
turn cfg now (timer_ready mono_secs changed reply) w =
    some (housekeeping now mono_secs changed reply w)
turn cfg now (turn_ends is_drained) w = some (drop_drained now is_drained w)

-- Each with the instant at which it is handled.
unfoldable pub turns : Config → List (ℕ × Ready) → Worker → Option Worker
turns cfg [] w = some w
turns cfg ((now, ready) ∷ rest) w = elim (turn cfg now ready w) [
  | none ↦ none
  | some w' ↦ turns cfg rest w'
]
