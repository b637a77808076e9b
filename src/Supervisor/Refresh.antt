-- ===== src/Supervisor/Refresh.antt =====
-- main.rs: the refresh of the upstream's addresses, one round of the supervisor's loop after the other, and
-- how long a round waits.
use nix_config.Common.{
  ℕ, ◌+◌, ◌-◌, ◌*◌, ◌/◌, ◌≤◌, ◌<◌, ◌≡◌, ◌⊎◌, inl, inr, refl, List, Bool, true, false, Bool-cases,
  Option-cases, Option, none, some, if◌then◌else◌, leb, ltb, min, max, arith,
}
use nix_config.Shared.Address.{IpAddr}
use nix_config.Worker.Migration.{second}
use nix_config.Worker.Connection.{millisecond}
use nix_config.Bootstrap.Answers.{Packet}
use nix_config.Bootstrap.Async.{AsyncResolve, on_readable, on_timeout, query_timeout}
use nix_config.Supervisor.Candidates.{update_candidates}
pub mod Ends

abbrev pub retry_interval : ℕ
retry_interval = 60 * second

pub record Refresh : Type 0 where
  pub pending : Option AsyncResolve
  pub next_refresh : ℕ
  pub candidates : List IpAddr

-- `started` is what `AsyncResolve::start` gives, where it is called.
unfoldable pub begin_on : Option AsyncResolve → ℕ → Option AsyncResolve → Refresh → Refresh
begin_on (some r) now started s = s
begin_on none now started s =
    let failed = record s { next_refresh = now + retry_interval } in
    if leb s.next_refresh now
    then (elim started [ none ↦ failed | some r ↦ record s { pending = some r } ])
    else s

unfoldable pub begin_refresh : ℕ → Option AsyncResolve → Refresh → Refresh
begin_refresh now started s = begin_on s.pending now started s

unfoldable pub refreshed : ℕ → Bool → AsyncResolve × Option (List IpAddr × ℕ) → Refresh → Refresh
refreshed now prefer_ipv4 (r, none) s = record s { pending = some r }
refreshed now prefer_ipv4 (r, some (ips, ttl)) s = record {
  pending = none;
  next_refresh = now + ttl * second;
  candidates = update_candidates s.candidates ips prefer_ipv4;
}

unfoldable pub read_pending :
    (List ℕ → Option Packet) → Bool → ℕ → Bool → List (List ℕ) → Refresh → Refresh
read_pending parse prefer_ipv4 now readable bufs s = elim s.pending [
  | none ↦ s
  | some r ↦ if readable then refreshed now prefer_ipv4 (on_readable parse bufs r) s else s
]

unfoldable pub timed_out : ℕ → AsyncResolve × Bool → Refresh → Refresh
timed_out now (r, false) s = record s { pending = some r }
timed_out now (r, true) s = record s { pending = none; next_refresh = now + retry_interval }

unfoldable pub expire_pending_resolve : ℕ → Refresh → Refresh
expire_pending_resolve now s = elim s.pending [
  | none ↦ s
  | some r ↦ if leb r.deadline now then timed_out now (on_timeout now r) s else s
]

unfoldable pub refresh_round :
    (List ℕ → Option Packet)
    → Bool
    → ℕ
    → Option AsyncResolve
    → Bool
    → List (List ℕ)
    → Refresh
    → Refresh
refresh_round parse prefer_ipv4 now started readable bufs s =
    expire_pending_resolve now
      (read_pending parse prefer_ipv4 now readable bufs (begin_refresh now started s))

-- `as_millis().clamp(1, 1000)` of the time until an instant, and the least of what a round waits for.
unfoldable pub wait_ms : ℕ → ℕ → ℕ
wait_ms now until = min (max ((until - now) / millisecond) 1) 1000

abbrev pub wait_until : ℕ → Option ℕ → ℕ → ℕ
wait_until now none ms = ms
wait_until now (some until) ms = min ms (wait_ms now until)

-- On the deadline of the resolution and the first restart.
unfoldable pub poll_timeout_ms : ℕ → Option ℕ → Option ℕ → ℕ
poll_timeout_ms now deadline restart_at = wait_until now restart_at (wait_until now deadline 1000)
