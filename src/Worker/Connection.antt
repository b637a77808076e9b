-- ===== src/Worker/Connection.antt =====
-- worker.rs: the state of a worker's event loop, and how its connection is made, closed and lost. An
-- instant is a count of nanoseconds from an origin before which there is none. The port of the remote
-- address never changes, so that the address alone is kept.
use nix_config.Common.{
  ℕ, ◌+◌, ◌-◌, ◌*◌, ◌≤◌, ◌<◌, Bool, true, false, not, ◌&&◌, ◌||◌, Option, none, some, if◌then◌else◌,
  leb, min, List,
}
use nix_config.Shared.Address.{IpAddr}
use nix_config.Shared.Upstream.{UpstreamSet}
use nix_config.Shared.Scores.{ScoreSlot}
use nix_config.H3.Streams.{new_h3}
use nix_config.Worker.Quality.{saturating_inc}
use nix_config.Worker.Migration.{second}
use nix_config.Worker.Requests.{Requests, fail_all_pending}
pub mod Events
pub mod Housekeeping
pub mod Turns
pub mod Timer
pub mod Backoff
pub mod Migrates
pub mod Deadlines
pub mod Steady

abbrev pub millisecond : ℕ
millisecond = 1_000_000

abbrev pub reconnect_backoff_max : ℕ
reconnect_backoff_max = 5 * second

-- `Runtime` without its quality, which stands with the requests.
pub record Runtime : Type 0 where
  pub child_idx : ℕ
  pub fail_streak : ℕ
  pub set : UpstreamSet
  pub my_remote : IpAddr
  pub slot : ℕ
  pub last_migrate : ℕ
  pub last_score : ℕ

-- The locals of `run`. `preamble` is `none` until `send_preamble` is called on the present connection, and then
-- tells whether the control stream has opened and taken it; `scores` is the page of all workers' scores.
pub record Worker : Type 0 where
  pub requests : Requests
  pub has_conn : Bool
  pub zero_rtt_offered : Bool
  pub preamble : Option Bool
  pub goaway : Bool
  pub h3_ready : Bool
  pub reconnect_at : Option ℕ
  pub backoff : ℕ
  pub rt : Runtime
  pub scores : List ScoreSlot

-- What the library and the socket answer while a connection is made: whether the endpoint makes one,
-- whether that has 0-RTT, whether its control stream opens and takes the preamble, and whether the two
-- flushes succeed.
pub record ConnectReply : Type 0 where
  pub made : Bool
  pub zero_rtt : Bool
  pub control : Bool
  pub flushed : Bool
  pub flushed_again : Bool

-- Where there is a connection: `open_control_uni` gives `None` without one.
unfoldable pub send_preamble : Bool → Worker → Worker
send_preamble control w = record w { preamble = some (w.has_conn && control) }

-- `Quic::connect`; false is an error.
unfoldable pub connect : ConnectReply → Worker → Worker × Bool
connect reply w =
    if reply.made
    then (
      record w { has_conn = true; zero_rtt_offered = reply.zero_rtt; preamble = none },
      reply.flushed,
    )
    else (w, false)

-- The result is `ready`, and `none` an error.
unfoldable pub connect_and_preamble : ConnectReply → Worker → Worker × Option Bool
connect_and_preamble reply w =
    let c = connect reply w in
    let prepared = if reply.zero_rtt then send_preamble reply.control c.0 else c.0 in
    if not c.1
    then (c.0, none)
    else if reply.flushed_again
    then (prepared, some reply.zero_rtt)
    else (prepared, none)

-- `quic.drop_conn()` and the resets that follow it everywhere.
unfoldable pub drop_conn : Worker → Worker
drop_conn w = record w {
  has_conn = false;
  requests = record w.requests { h3 = new_h3 };
  goaway = false;
  h3_ready = false;
}

unfoldable pub count_failure : Worker → Worker
count_failure w = record w { rt = record w.rt { fail_streak = saturating_inc w.rt.fail_streak } }

unfoldable pub fail_pending : Worker → Worker
fail_pending w = record w { requests = fail_all_pending w.requests }

abbrev pub next_backoff : ℕ → ℕ
next_backoff backoff = min (backoff * 2 + 100 * millisecond) reconnect_backoff_max

-- `Event::ConnectionLost`.
unfoldable pub lose_connection : ℕ → Bool → Worker → Worker
lose_connection now application_closed w =
    let counted =
      if application_closed
      then record w { rt = record w.rt { fail_streak = 0 } }
      else count_failure w in
    record (drop_conn (fail_pending counted)) {
      reconnect_at = some (now + w.backoff);
      backoff = next_backoff w.backoff;
    }

unfoldable pub unwrap_or : Option ℕ → ℕ → ℕ
unwrap_or none d = d
unwrap_or (some n) d = n

unfoldable pub get_or_insert : Option ℕ → ℕ → Option ℕ
get_or_insert none t = some t
get_or_insert (some u) t = some u

-- The connection fully drained, at the end of each turn of the loop.
unfoldable pub drop_drained : ℕ → Bool → Worker → Worker
drop_drained now is_drained w =
    if w.has_conn && is_drained
    then record (drop_conn (fail_pending (count_failure w))) {
      reconnect_at = get_or_insert w.reconnect_at (now + w.backoff);
    }
    else w

-- The reconnect branch of `housekeeping`, once its time has come.
unfoldable pub close_stale : Worker → Worker
close_stale w = if w.has_conn then drop_conn w else w

unfoldable pub settle : ℕ → Worker × Option Bool → Worker
settle now (w, some ready) = record w { h3_ready = ready; reconnect_at = none }
settle now (w, none) = record (count_failure w) { reconnect_at = some (now + second) }

unfoldable pub reconnect : ℕ → ConnectReply → Worker → Worker
reconnect now reply w = elim w.reconnect_at [
  | none ↦ w
  | some t ↦ if leb t now then settle now (connect_and_preamble reply (close_stale w)) else w
]
