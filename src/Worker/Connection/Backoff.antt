-- ===== src/Worker/Connection/Backoff.antt =====
-- worker.rs: the backoff over connections that are made and lost one after the other.
use nix_config.Common.{
  ℕ, zero, suc, ◌+◌, ◌*◌, ◌^◌, ◌-◌, ◌≤◌, ◌<◌, ◌≡◌, ◌⊎◌, inl, inr, refl, ap, ◌∙◌, List, [], ◌∷◌,
  Bool, false, Bool-cases, Option, none, some, leb, min, length, arith,
}
use native.Mathlib.Nat.{pow-suc}
use nix_config.Shared.Upstream.{UpstreamSet}
use nix_config.Worker.Migration.{second}
use nix_config.Worker.Connection.{
  Worker, ConnectReply, lose_connection, next_backoff, millisecond, drop_conn, count_failure,
  reconnect, settle, connect_and_preamble, connect, send_preamble, close_stale,
}
use nix_config.Worker.Connection.Housekeeping.{
  housekeeping, migrate, move_to, drain_goaway, publish_score, expire, adopt,
}
use nix_config.Worker.Connection.Steady.Reconnects.{
  Succeeds, Reconnected, upkeep, upkeep_goaway, upkeep_waits, reconnect_made,
}

-- A loss, with its instant and whether the peer closed at the application layer, and one housekeeping after
-- it, with what it is given.
pub record Cycle : Type 0 where
  pub lost_at : ℕ
  pub application_closed : Bool
  pub at : ℕ
  pub secs : ℕ
  pub changed : Option UpstreamSet
  pub reply : ConnectReply

-- The last one first.
unfoldable pub cycles : List Cycle → Worker → Worker
cycles [] w = w
cycles (x ∷ xs) w =
    housekeeping x.at x.secs x.changed x.reply
      (lose_connection x.lost_at x.application_closed (cycles xs w))

power_some : (n : ℕ) → 1 ≤ 2 ^ n
power_some zero = omega arith
power_some (suc n) = omega (arith, pow-suc 2 n, power_some n)

doubled :
    (n b : ℕ)
    → b ≡ min ((2 ^ n - 1) * 100 * millisecond) (5 * second)
    → next_backoff b ≡ min ((2 ^ suc n - 1) * 100 * millisecond) (5 * second)
doubled n b e =
    let power : 2 ^ suc n ≡ 2 ^ n * 2 = pow-suc 2 n in
    let some_power : 1 ≤ 2 ^ n = power_some n in omega (arith, power, some_power, e)

upkeep_kept :
    (now secs : ℕ) (changed : Option UpstreamSet) (w : Worker)
    → let v = upkeep now secs changed w in (v.backoff ≡ w.backoff) × (v.has_conn ≡ w.has_conn)
unfolding upkeep migrate move_to drain_goaway publish_score expire adopt
upkeep_kept now secs none w = ground arith
upkeep_kept now secs (some new) w = ground arith

reconnect_backoff :
    (now : ℕ) (reply : ConnectReply) (w : Worker) → (reconnect now reply w).backoff ≡ w.backoff
unfolding reconnect settle connect_and_preamble connect send_preamble close_stale drop_conn
    count_failure
reconnect_backoff now reply w = ground arith

housekeeping_backoff :
    (now secs : ℕ) (changed : Option UpstreamSet) (reply : ConnectReply) (w : Worker)
    → (housekeeping now secs changed reply w).backoff ≡ w.backoff
unfolding housekeeping upkeep
housekeeping_backoff now secs changed reply w =
    reconnect_backoff now reply (upkeep now secs changed w) ∙ (upkeep_kept now secs changed w).0

lost_backoff :
    (now : ℕ) (app : Bool) (w : Worker)
    → let v = lose_connection now app w in
      (v.backoff ≡ next_backoff w.backoff)
      × (v.reconnect_at ≡ some (now + w.backoff))
      × (v.has_conn ≡ false)
      × (v.goaway ≡ false)
unfolding lose_connection drop_conn
lost_backoff now app w = (refl, refl, refl, refl)

cycles_backoff :
    (xs : List Cycle) (w : Worker)
    → w.backoff ≡ 0
    → (cycles xs w).backoff ≡ min ((2 ^ length xs - 1) * 100 * millisecond) (5 * second)
unfolding cycles
cycles_backoff [] w e = e
cycles_backoff (x ∷ xs) w e =
    let v = lose_connection x.lost_at x.application_closed (cycles xs w) in
    housekeeping_backoff x.at x.secs x.changed x.reply v
    ∙ (lost_backoff x.lost_at x.application_closed (cycles xs w)).0
    ∙ doubled (length xs) (cycles xs w).backoff (cycles_backoff xs w e)

reconnect_waits :
    (now t : ℕ) (reply : ConnectReply) (w : Worker)
    → w.reconnect_at ≡ some t
    → now < t
    → (reconnect now reply w).has_conn ≡ w.has_conn
unfolding reconnect
reconnect_waits now t reply w e early =
    let later : leb t now ≡ false = ground arith in rw (reconnect, e, later) refl

housekeeping_lost :
    (later secs t : ℕ) (changed : Option UpstreamSet) (reply : ConnectReply) (v : Worker)
    → v.has_conn ≡ false
    → v.goaway ≡ false
    → v.reconnect_at ≡ some t
    → Succeeds reply
    → let u = housekeeping later secs changed reply v in
      ((later < t) × (u.has_conn ≡ false)) ⊎ ((t ≤ later) × Reconnected reply u)
unfolding housekeeping upkeep
housekeeping_lost later secs t changed reply v down g set ok =
    let waits = upkeep_waits later secs t changed v g set in
    elim (Bool-cases (leb t later)) [
      | inl due ↦ inr (
        ground arith,
        reconnect_made later t reply (upkeep later secs changed v) ok
            (inl (upkeep_goaway later secs changed v g)) waits (ground arith),
      )
      | inr early ↦ inl (
        ground arith,
        reconnect_waits later t reply (upkeep later secs changed v) waits (ground arith)
            ∙ (upkeep_kept later secs changed v).1
            ∙ down,
      )
    ]

-- A worker whose backoff is 0 and whose connection is lost `n` times, each time with one housekeeping after
-- it, whatever that does, and never reported made: when it is lost once more, a housekeeping to which the
-- library gives a connection makes one exactly from `2 ^ n - 1` tenths of a second after that loss on, or
-- from five seconds on where that is less; before that the worker has none.
pub lose_connection_waits :
    (xs : List Cycle) (now later secs : ℕ) (app : Bool) (changed : Option UpstreamSet)
    (reply : ConnectReply) (w : Worker)
    → w.backoff ≡ 0
    → Succeeds reply
    → let t = now + min ((2 ^ length xs - 1) * 100 * millisecond) (5 * second) in
      let u = housekeeping later secs changed reply (lose_connection now app (cycles xs w)) in
      ((later < t) × (u.has_conn ≡ false)) ⊎ ((t ≤ later) × Reconnected reply u)
lose_connection_waits xs now later secs app changed reply w e ok =
    let v = lose_connection now app (cycles xs w) in
    let (backoff, set, down, g) = lost_backoff now app (cycles xs w) in
    housekeeping_lost later secs _ changed reply v down g
      (set ∙ ap (λ b. some (now + b)) (cycles_backoff xs w e)) ok
