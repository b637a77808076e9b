-- ===== src/Worker/Connection/Steady/Reconnects.antt =====
-- worker.rs: the reconnect of a worker that has no connection, when the timer fires.
use nix_config.Common.{
  ℕ, ◌+◌, ◌*◌, ◌≤◌, ◌≡◌, ◌⊎◌, inl, refl, List, Bool, true, false, Option, none, some, leb, arith,
}
use nix_config.Shared.Upstream.{UpstreamSet}
use nix_config.Shared.Scores.{ScoreSlot}
use nix_config.Worker.Dispatch.{Config}
use nix_config.Worker.Migration.{second}
use nix_config.Worker.Connection.{
  Worker, ConnectReply, send_preamble, connect, connect_and_preamble, drop_conn, close_stale,
  settle, reconnect,
}
use nix_config.Worker.Connection.Housekeeping.{
  adopt, expire, publish_score, drain_goaway, migrate, move_to, housekeeping,
}
use nix_config.Worker.Connection.Turns.{Ready, turns, start}
use nix_config.Worker.Connection.Steady.{Due, SteadyLink}
use nix_config.Worker.Connection.Steady.Runs.{InOrder, last_instant, runs-Steady}

-- The parts of housekeeping leave the reconnect of a worker without a connection as it is.
unfoldable pub upkeep : ℕ → ℕ → Option UpstreamSet → Worker → Worker
upkeep now secs changed w =
    migrate now secs (drain_goaway now (publish_score now secs (expire now changed w)))

pub upkeep_waits :
    (now secs t : ℕ) (changed : Option UpstreamSet) (w : Worker)
    → w.goaway ≡ false
    → w.reconnect_at ≡ some t
    → (upkeep now secs changed w).reconnect_at ≡ some t
unfolding upkeep migrate drain_goaway publish_score expire adopt
upkeep_waits now secs t none w g r = ground arith
upkeep_waits now secs t (some new) w g r = ground arith

-- The connection is made, and both flushes succeed.
abbrev pub Succeeds : ConnectReply → Type 0
Succeeds reply = (reply.made ≡ true) × (reply.flushed ≡ true) × (reply.flushed_again ≡ true)

abbrev pub Reconnected : ConnectReply → Worker → Type 0
Reconnected reply w =
    (w.has_conn ≡ true)
    × (w.reconnect_at ≡ none)
    × (w.goaway ≡ false)
    × (w.h3_ready ≡ reply.zero_rtt)

settle-Reconnected :
    (now : ℕ) (reply : ConnectReply) (v : Worker)
    → Succeeds reply
    → v.goaway ≡ false
    → Reconnected reply (settle now (connect_and_preamble reply v))
unfolding settle connect_and_preamble connect send_preamble
settle-Reconnected now reply v (made, flushed, again) g = ground arith

close_stale_goaway :
    (v : Worker) → (v.goaway ≡ false) ⊎ (v.has_conn ≡ true) → (close_stale v).goaway ≡ false
unfolding close_stale drop_conn
close_stale_goaway v g = ground arith

pub reconnect_made :
    (now t : ℕ) (reply : ConnectReply) (v : Worker)
    → Succeeds reply
    → (v.goaway ≡ false) ⊎ (v.has_conn ≡ true)
    → v.reconnect_at ≡ some t
    → t ≤ now
    → Reconnected reply (reconnect now reply v)
unfolding reconnect
reconnect_made now t reply v ok g set due =
    let timely : leb t now ≡ true = ground arith in
    rw (reconnect, set, timely)
      (settle-Reconnected now reply (close_stale v) ok (close_stale_goaway v g))

pub upkeep_goaway :
    (now secs : ℕ) (changed : Option UpstreamSet) (w : Worker)
    → w.goaway ≡ false
    → (upkeep now secs changed w).goaway ≡ false
unfolding upkeep migrate move_to drain_goaway publish_score expire adopt
upkeep_goaway now secs none w g = ground arith
upkeep_goaway now secs (some new) w g = ground arith

Due-instant :
    (since : ℕ) (c : Bool) (o : Option ℕ)
    → c ≡ false
    → Due since c o
    → (t : ℕ) × (o ≡ some t) × (t ≤ since + 5 * second)
unfolding Due
Due-instant since c none down due = cc
Due-instant since c (some t) down due = (t, refl, due)

down_goaway : (g c : Bool) → c ≡ false → (g ≡ false) ⊎ (c ≡ true) → g ≡ false
down_goaway g c down s = ground arith

-- A worker that has started and has no connection after any turns in the order of time, each connection
-- reported made before it is lost: the housekeeping of five seconds later or more makes one, where the
-- library succeeds in that; no reconnect is then set, the worker does not drain, and it opens requests at
-- once exactly with 0-RTT.
pub housekeeping-Reconnected :
    (cfg : Config) (set : UpstreamSet) (idx since : ℕ) (first reply : ConnectReply)
    (scores : List ScoreSlot) (rs : List (ℕ × Ready)) (w w' : Worker) (later secs : ℕ)
    (changed : Option UpstreamSet)
    → start set idx since first scores ≡ some w
    → InOrder since rs
    → turns cfg rs w ≡ some w'
    → w'.has_conn ≡ false
    → last_instant since rs + 5 * second ≤ later
    → Succeeds reply
    → Reconnected reply (housekeeping later secs changed reply w')
unfolding housekeeping SteadyLink upkeep
housekeeping-Reconnected cfg set idx since first reply scores rs w w' later secs changed started
      ordered e down late ok =
    let steady = runs-Steady cfg set idx since first scores rs w w' started ordered e in
    let (due, backoff, goaway, ready) = steady in
    let (t, set_at, bound) =
      Due-instant (last_instant since rs) w'.has_conn w'.reconnect_at down due in
    let g = down_goaway w'.goaway w'.has_conn down goaway in
    reconnect_made later t reply (upkeep later secs changed w') ok
      (inl (upkeep_goaway later secs changed w' g)) (upkeep_waits later secs t changed w' g set_at)
      (omega arith)
