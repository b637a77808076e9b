-- ===== src/Worker/Connection/Steady/Runs.antt =====
-- worker.rs: the connection of a worker over any turns of its loop.
use nix_config.Common.{
  ℕ, ◌≤◌, ◌≡◌, ◌⊎◌, inr, refl, subst, List, [], ◌∷◌, Bool, true, false, chained, some-injective,
  none≢some, Option, none, some, arith,
}
use nix_config.Shared.Upstream.{UpstreamSet}
use nix_config.Shared.Scores.{ScoreSlot}
use nix_config.Worker.Dispatch.{Config}
use nix_config.Worker.Connection.{
  Worker, ConnectReply, send_preamble, connect, connect_and_preamble,
}
use nix_config.Worker.Connection.Turns.{
  Ready, turn, turns, start, new_runtime, before_connect, after_connect,
}
use nix_config.Worker.Connection.Steady.{Due, is_sent, SteadyLink, Steady, Steady-later}
use nix_config.Worker.Connection.Steady.Events.{CoherentReady, turn-Steady}

-- The turns are in the order of time, and what the library tells in each is coherent.
unfoldable pub InOrder : ℕ → List (ℕ × Ready) → Type 0
InOrder since [] = Unit
InOrder since ((now, ready) ∷ rest) = (since ≤ now) × CoherentReady ready × InOrder now rest

unfoldable pub last_instant : ℕ → List (ℕ × Ready) → ℕ
last_instant since [] = since
last_instant since ((now, ready) ∷ rest) = last_instant now rest

turns-Steady :
    (cfg : Config) (since : ℕ) (rs : List (ℕ × Ready)) (w w' : Worker)
    → InOrder since rs
    → Steady since w
    → turns cfg rs w ≡ some w'
    → Steady (last_instant since rs) w'
unfolding InOrder last_instant turns
turns-Steady cfg since [] w w' o s e = subst (Steady since) (some-injective e) s
turns-Steady cfg since ((now, ready) ∷ rest) w w' (le, c, o) s e =
    let (t, turned, later) = chained (turn cfg now ready w) (λ t. turns cfg rest t) w' e in
    turns-Steady cfg now rest t w' o
      (turn-Steady cfg now ready w t c (Steady-later since now w le s) turned) later

-- What a connection that is made leaves as it was.
connect_made :
    (reply : ConnectReply) (v : Worker) (ready : Bool)
    → (connect_and_preamble reply v).1 ≡ some ready
    → let c = (connect_and_preamble reply v).0 in
      (c.has_conn ≡ true)
      × (c.goaway ≡ v.goaway)
      × (c.reconnect_at ≡ v.reconnect_at)
      × (c.backoff ≡ v.backoff)
      × ((ready ≡ false) ⊎ ((c.has_conn ≡ true) × (is_sent c.preamble ≡ true)))
unfolding connect_and_preamble connect send_preamble
connect_made reply v ready e = ground arith

after_connect-some :
    (r : Worker × Option Bool) (w : Worker)
    → after_connect r ≡ some w
    → (ready : Bool) × (r.1 ≡ some ready) × (record r.0 { h3_ready = ready } ≡ w)
after_connect-some (v, none) w e = absurd (none≢some e)
after_connect-some (v, some ready) w e = (ready, refl, some-injective e)

start-Steady :
    (set : UpstreamSet) (idx now : ℕ) (reply : ConnectReply) (scores : List ScoreSlot) (w : Worker)
    → start set idx now reply scores ≡ some w
    → Steady now w
unfolding start
start-Steady set idx now reply scores w e =
    let (rt, made, connected) =
      chained (new_runtime set idx now)
        (λ rt. after_connect (connect_and_preamble reply (before_connect scores rt))) w e in
    let v = before_connect scores rt in
    let (ready, done, same) = after_connect-some (connect_and_preamble reply v) w connected in
    let (up, goaway, never, backoff, prepared) = connect_made reply v ready done in
    subst (Steady now) same
      (unfold SteadyLink Due in (rw never up, rw backoff (omega arith), inr up, prepared))

-- Where each connection is reported lost after it is reported made, and the turns of the loop are in the
-- order of time: a worker that has started, and has not ended, has a connection or an instant at which it
-- makes one, at most five seconds after the last turn; its next backoff is at most five seconds; it drains
-- only with a connection, and opens requests only with one on which the preamble has been tried.
pub runs-Steady :
    (cfg : Config) (set : UpstreamSet) (idx since : ℕ) (reply : ConnectReply)
    (scores : List ScoreSlot) (rs : List (ℕ × Ready)) (w w' : Worker)
    → start set idx since reply scores ≡ some w
    → InOrder since rs
    → turns cfg rs w ≡ some w'
    → Steady (last_instant since rs) w'
runs-Steady cfg set idx since reply scores rs w w' started ordered e =
    turns-Steady cfg since rs w w' ordered (start-Steady set idx since reply scores w started) e
