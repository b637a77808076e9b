-- ===== src/Tests/Connections.antt =====
-- The connection of a worker at concrete inputs.
use nix_config.Common.{
  ◌<◌, ◌≤◌, ◌⊎◌, ℕ, ◌+◌, ◌-◌, ◌*◌, ◌^◌, ◌≡◌, refl, List, [], ◌∷◌, ◌++◌, true, false, none, some,
  min, codes, drop, if◌then◌else◌, find_key, Distinct, arith,
}
use nix_config.Url.{contains}
use nix_config.Base64url.Decode.{decode64}
use nix_config.Shared.Address.{v4}
use nix_config.Shared.Upstream.{UpstreamSet, slot_for, slot_loop, slot_target, total}
use nix_config.H3.Streams.{new_h3}
use nix_config.H3.Request.{encode_request}
use nix_config.Worker.Quality.{new_quality}
use nix_config.Worker.Migration.{second}
use nix_config.Worker.Dispatch.{Config, padded, request_bytes}
use nix_config.Worker.Dispatch.Get.{request_bytes-get}
use nix_config.Worker.Requests.{Pending, Requests, QuicReply, dispatch_query}
use nix_config.Worker.Requests.Held.{held_total}
use nix_config.Worker.Connection.{
  Worker, Runtime, ConnectReply, connect_and_preamble, connect, lose_connection, drop_conn,
  reconnect, millisecond, unwrap_or,
}
use nix_config.Worker.Connection.Events.{
  connection_lost, quic_events, quic_event, process_quic_events, h3_events,
}
use nix_config.Worker.Connection.Housekeeping.{housekeeping, next_wakeup}
use nix_config.Worker.Connection.Turns.{
  Ready, quic_ready, start, new_runtime, before_connect, turn, turns,
}
use nix_config.Worker.Connection.Timer.{Earliest, deadlines, next_wakeup-Earliest}
use nix_config.Worker.Connection.Backoff.{Cycle, cycles, lose_connection_waits}
use nix_config.Worker.Connection.Migrates.{dispatch-after_reconnect}
use nix_config.Worker.Connection.Steady.{Steady}
use nix_config.Worker.Connection.Steady.Events.{Coherent}
use nix_config.Worker.Connection.Steady.Runs.{InOrder, last_instant, runs-Steady}
use nix_config.Worker.Connection.Steady.Reconnects.{Reconnected, housekeeping-Reconnected}
use nix_config.Worker.Connection.Deadlines.Answered.{HeldInTime, housekeeping-HeldInTime}

abbrev short_timeout : Config
short_timeout = record {
  authority = codes "dns.google";
  path = codes "/q";
  token = none;
  pad = false;
  timeout = 3 * second;
}

abbrev one_address : UpstreamSet
one_address = record {
  addrs = v4 1 1 1 1 ∷ [];
  weights = 1 ∷ [];
  revision = 1;
  workers = 1;
  published_mono_secs = 0;
}

abbrev handshake : ConnectReply
handshake = record {
  made = true;
  zero_rtt = false;
  control = true;
  flushed = true;
  flushed_again = true;
}

abbrev runtime : Runtime
runtime = record {
  child_idx = 0;
  fail_streak = 0;
  set = one_address;
  my_remote = v4 1 1 1 1;
  slot = 0;
  last_migrate = 1000;
  last_score = 1000;
}

abbrev begun : Worker
begun = record (before_connect [] runtime) { has_conn = true }

has_begun : start one_address 0 1000 handshake [] ≡ some begun
unfolding start new_runtime unwrap_or slot_for slot_loop slot_target total connect_and_preamble
    connect
has_begun = refl

abbrev one_loss : List (ℕ × Ready)
one_loss = (2000, quic_ready (connection_lost false ∷ [])) ∷ []

abbrev lost : Worker
lost = lose_connection 2000 false begun

has_lost : turns short_timeout one_loss begun ≡ some lost
unfolding turns turn process_quic_events quic_events quic_event h3_events
has_lost = refl

in_order : InOrder 1000 one_loss
unfolding InOrder Coherent
in_order = (omega arith, tt, tt)

runs-Steady_example : Steady (last_instant 1000 one_loss) lost
runs-Steady_example =
    runs-Steady short_timeout one_address 0 1000 handshake [] one_loss begun lost has_begun in_order
      has_lost

is_down : lost.has_conn ≡ false
unfolding lose_connection drop_conn
is_down = refl

housekeeping-Reconnected_example :
    Reconnected handshake (housekeeping (6 * second) 6 none handshake lost)
housekeeping-Reconnected_example =
    housekeeping-Reconnected short_timeout one_address 0 1000 handshake handshake [] one_loss begun
      lost (6 * second) 6 none has_begun in_order has_lost is_down
      (unfold last_instant in omega arith) (refl, refl, refl)

housekeeping-HeldInTime_example :
    HeldInTime (6 * second) (housekeeping (6 * second) 6 none handshake lost).requests
housekeeping-HeldInTime_example =
    housekeeping-HeldInTime short_timeout 1000 one_loss begun lost (6 * second) 6 none handshake
      refl in_order has_lost

next_wakeup-Earliest_example : Earliest (next_wakeup (some 3000) lost) (deadlines (some 3000) lost)
next_wakeup-Earliest_example = next_wakeup-Earliest (some 3000) lost

abbrev one_cycle : List Cycle
one_cycle =
    record {
      lost_at = 2000;
      application_closed = false;
      at = 3000;
      secs = 6;
      changed = none;
      reply = handshake;
    }
    ∷ []

lose_connection_waits_example :
    let t = 9000 + min ((2 ^ 1 - 1) * 100 * millisecond) (5 * second) in
    let u =
      housekeeping
        (6 * second)
        6
        none
        handshake
        (lose_connection 9000 false (cycles one_cycle begun)) in
    ((6 * second < t) × (u.has_conn ≡ false)) ⊎ ((t ≤ 6 * second) × Reconnected handshake u)
lose_connection_waits_example =
    lose_connection_waits one_cycle 9000 (6 * second) 6 false none handshake begun refl
      (refl, refl, refl)

abbrev waiting_query : List ℕ
waiting_query = 7 ∷ 8 ∷ 1 ∷ 0 ∷ 0 ∷ 1 ∷ 0 ∷ 0 ∷ 0 ∷ 0 ∷ 0 ∷ 0 ∷ 0 ∷ 0 ∷ 1 ∷ 0 ∷ 1 ∷ []

abbrev waiting : Pending
waiting = record { query = waiting_query; peer = 5; deadline = 3 * second; started = 0 }

abbrev moving : Worker
moving = record begun {
  requests = record {
    h3 = new_h3;
    pending = (0, waiting) ∷ [];
    queue = [];
    quality = new_quality;
    sent = [];
  };
  reconnect_at = some 1500;
}

abbrev first_stream : QuicReply
first_stream = record { opened = some 0; written = true; finished = true }

unpadded : padded false waiting_query ≡ some waiting_query
unfolding padded
unpadded = refl

requested :
    (b64 : List ℕ) × (request_bytes short_timeout waiting_query
      ≡ some (
          encode_request []
            (codes "GET")
            (codes "dns.google")
            (codes "/q" ++ ((if contains 63 (codes "/q") then 38 else 63) ∷ (codes "dns=" ++ b64)))
            none
            none))
    × (decode64 b64 ≡ 0 ∷ 0 ∷ drop 2 waiting_query)
requested =
    request_bytes-get short_timeout waiting_query waiting_query (omega arith) unpadded (omega arith)
      (omega arith)

dispatch-after_reconnect_example :
    (s : Requests) × (dispatch_query short_timeout first_stream waiting_query 6 1500
        (reconnect 1500 handshake moving).requests
      ≡ some s)
    × (held_total s ≡ held_total moving.requests)
    × (s.sent ≡ [])
    × (find_key 0 s.pending
        ≡ some (record {
          query = waiting_query;
          peer = 6;
          deadline = 1500 + 3 * second;
          started = 1500;
        }))
dispatch-after_reconnect_example =
    dispatch-after_reconnect short_timeout first_stream handshake 0 waiting waiting_query _ 6 1500
      moving (unfold Distinct find_key in (refl, tt)) (unfold find_key in refl) refl refl refl
      requested.1
