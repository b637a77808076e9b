-- ===== src/Supervisor/Refresh/Ends.antt =====
-- main.rs: the end of a refresh of the upstream's addresses.
use nix_config.Common.{
  ℕ, ◌+◌, ◌*◌, ◌≤◌, ◌<◌, ◌≡◌, ◌⊎◌, inl, inr, refl, sym, subst, ap, ◌∙◌, List, [], ◌∷◌, Bool, true,
  false, Bool-cases, Option, none, some, leb, arith,
}
use nix_config.Shared.Address.{IpAddr}
use nix_config.Worker.Migration.{second}
use nix_config.Bootstrap.Answers.{Packet}
use nix_config.Bootstrap.Async.{
  AsyncResolve, on_readable, on_timeout, query_timeout, take_datagrams, take_datagram,
  finish_resolve,
}
use nix_config.Supervisor.Refresh.{
  Refresh, begin_on, begin_refresh, refreshed, read_pending, timed_out, expire_pending_resolve,
  refresh_round,
}
pub mod Rounds

-- The time between two refreshes is at least half a minute.
finish_resolve_ttl : (r : AsyncResolve) → 30 ≤ (finish_resolve r).1
unfolding finish_resolve
finish_resolve_ttl r = omega arith

on_readable_ttl :
    (parse : List ℕ → Option Packet) (bufs : List (List ℕ)) (r : AsyncResolve) (ips : List IpAddr)
    (ttl : ℕ)
    → (on_readable parse bufs r).1 ≡ some (ips, ttl)
    → 30 ≤ ttl
unfolding on_readable
on_readable_ttl parse bufs r ips ttl e =
    let r' = take_datagrams parse bufs r in
    let bound = finish_resolve_ttl r' in ground (arith, bound)

-- Answers leave the attempts and the deadline.
abbrev pub Kept : AsyncResolve → AsyncResolve → Type 0
Kept r r' = (r'.attempts ≡ r.attempts) × (r'.deadline ≡ r.deadline)

take_datagram-Kept :
    (parse : List ℕ → Option Packet) (buf : List ℕ) (r : AsyncResolve)
    → Kept r (take_datagram parse buf r)
unfolding take_datagram
take_datagram-Kept parse buf r = ground arith

take_datagrams-Kept :
    (parse : List ℕ → Option Packet) (bufs : List (List ℕ)) (r : AsyncResolve)
    → Kept r (take_datagrams parse bufs r)
unfolding take_datagrams
take_datagrams-Kept parse [] r = (refl, refl)
take_datagrams-Kept parse (buf ∷ bufs) r =
    let (attempts, deadline) = take_datagram-Kept parse buf r in
    let (attempts', deadline') = take_datagrams-Kept parse bufs (take_datagram parse buf r) in
    (attempts' ∙ attempts, deadline' ∙ deadline)

-- A refresh that has ended, with half a minute to the next, or one that goes on with one more attempt.
abbrev pub Ended : ℕ → Refresh → Type 0
Ended now s = (s.pending ≡ none) × (now + 30 * second ≤ s.next_refresh)

abbrev pub Again : ℕ → ℕ → Refresh → Type 0
Again now attempts s =
    (r : AsyncResolve) × (s.pending ≡ some r)
    × (r.attempts ≡ attempts + 1)
    × (attempts + 1 ≤ 3)
    × (r.deadline ≡ now + 3 * second)

overdue :
    (now : ℕ) (r : AsyncResolve) (s : Refresh)
    → s.pending ≡ some r
    → r.deadline ≤ now
    → Ended now (expire_pending_resolve now s) ⊎ Again now r.attempts (expire_pending_resolve now s)
overdue now r s e late =
    let due : leb r.deadline now ≡ true = ground arith in
    elim (Bool-cases (leb 3 r.attempts)) [
      | inl last ↦ inl (
          unfold expire_pending_resolve on_timeout timed_out in
          rw (expire_pending_resolve, e, due, last) (refl, omega arith))
      | inr more ↦ inr (
          unfold expire_pending_resolve on_timeout timed_out in
          rw (expire_pending_resolve, e, due, more)
            (
              record r {
                attempts = r.attempts + 1;
                deadline = now + query_timeout;
                sent = r.sent + 1;
              },
              refl,
              refl,
              ground arith,
              refl,
            ))
    ]

begin-pending :
    (now : ℕ) (started : Option AsyncResolve) (r : AsyncResolve) (s : Refresh)
    → s.pending ≡ some r
    → begin_refresh now started s ≡ s
unfolding begin_refresh begin_on
begin-pending now started r s e = ap (λ o. begin_on o now started s) e

-- What a resolution whose deadline has passed may be after the datagrams of a round.
answered :
    (now : ℕ) (prefer : Bool) (r : AsyncResolve) (got : AsyncResolve × Option (List IpAddr × ℕ))
    (s : Refresh)
    → Kept r got.0
    → ((ips : List IpAddr) (ttl : ℕ) → got.1 ≡ some (ips, ttl) → 30 ≤ ttl)
    → r.deadline ≤ now
    → let s' = expire_pending_resolve now (refreshed now prefer got s) in
      Ended now s' ⊎ Again now r.attempts s'
unfolding refreshed
answered now prefer r (r', some (ips, ttl)) s kept bound late =
    inl (unfold expire_pending_resolve in (refl, omega (arith, bound ips ttl refl)))
answered now prefer r (r', none) s (attempts, deadline) bound late =
    elim (overdue now r' (record s { pending = some r' }) refl (omega (arith, deadline))) [
      | inl ended ↦ inl ended
      | inr (again, found, more, few, next) ↦
          inr (again, found, more ∙ ap (λ n. n + 1) attempts, omega (arith, attempts, few), next)
    ]

read_progress :
    (parse : List ℕ → Option Packet) (prefer : Bool) (now : ℕ) (readable : Bool)
    (bufs : List (List ℕ)) (r : AsyncResolve) (s : Refresh)
    → s.pending ≡ some r
    → r.deadline ≤ now
    → let s' = expire_pending_resolve now (read_pending parse prefer now readable bufs s) in
      Ended now s' ⊎ Again now r.attempts s'
unfolding read_pending
read_progress parse prefer now true bufs r s e late =
    rw (read_pending, e)
      (answered now prefer r (on_readable parse bufs r) s
        (unfold on_readable in take_datagrams-Kept parse bufs r) (on_readable_ttl parse bufs r)
        late)
read_progress parse prefer now false bufs r s e late = rw (read_pending, e) (overdue now r s e late)

pub refresh_round_progress :
    (parse : List ℕ → Option Packet) (prefer : Bool) (now : ℕ) (started : Option AsyncResolve)
    (readable : Bool) (bufs : List (List ℕ)) (r : AsyncResolve) (s : Refresh)
    → s.pending ≡ some r
    → r.deadline ≤ now
    → let s' = refresh_round parse prefer now started readable bufs s in
      Ended now s' ⊎ Again now r.attempts s'
unfolding refresh_round
refresh_round_progress parse prefer now started readable bufs r s e late =
    subst
      (λ (t : Refresh).
        let s' = expire_pending_resolve now (read_pending parse prefer now readable bufs t) in
        Ended now s' ⊎ Again now r.attempts s')
      (sym (begin-pending now started r s e))
      (read_progress parse prefer now readable bufs r s e late)

-- A round before the deadline ends the resolution, or leaves its attempts and its deadline.
abbrev pub Goes : AsyncResolve → Refresh → Type 0
Goes r s = (q : AsyncResolve) × (s.pending ≡ some q) × Kept r q

in_time :
    (now : ℕ) (r q : AsyncResolve) (s : Refresh)
    → s.pending ≡ some q
    → Kept r q
    → now < r.deadline
    → Goes r (expire_pending_resolve now s)
unfolding expire_pending_resolve
in_time now r q s e (attempts, deadline) early =
    let not_due : leb q.deadline now ≡ false = ground (arith, deadline) in
    rw (expire_pending_resolve, e, not_due) (q, e, (attempts, deadline))

answered_early :
    (now : ℕ) (prefer : Bool) (r : AsyncResolve) (got : AsyncResolve × Option (List IpAddr × ℕ))
    (s : Refresh)
    → Kept r got.0
    → ((ips : List IpAddr) (ttl : ℕ) → got.1 ≡ some (ips, ttl) → 30 ≤ ttl)
    → now < r.deadline
    → let s' = expire_pending_resolve now (refreshed now prefer got s) in Ended now s' ⊎ Goes r s'
unfolding refreshed
answered_early now prefer r (r', some (ips, ttl)) s kept bound early =
    inl (unfold expire_pending_resolve in (refl, omega (arith, bound ips ttl refl)))
answered_early now prefer r (r', none) s kept bound early =
    inr (in_time now r r' (record s { pending = some r' }) refl kept early)

read_early :
    (parse : List ℕ → Option Packet) (prefer : Bool) (now : ℕ) (readable : Bool)
    (bufs : List (List ℕ)) (r : AsyncResolve) (s : Refresh)
    → s.pending ≡ some r
    → now < r.deadline
    → let s' = expire_pending_resolve now (read_pending parse prefer now readable bufs s) in
      Ended now s' ⊎ Goes r s'
unfolding read_pending
read_early parse prefer now true bufs r s e early =
    rw (read_pending, e)
      (answered_early now prefer r (on_readable parse bufs r) s
        (unfold on_readable in take_datagrams-Kept parse bufs r) (on_readable_ttl parse bufs r)
        early)
read_early parse prefer now false bufs r s e early =
    rw (read_pending, e) (inr (in_time now r r s e (refl, refl) early))

pub refresh_round_early :
    (parse : List ℕ → Option Packet) (prefer : Bool) (now : ℕ) (started : Option AsyncResolve)
    (readable : Bool) (bufs : List (List ℕ)) (r : AsyncResolve) (s : Refresh)
    → s.pending ≡ some r
    → now < r.deadline
    → let s' = refresh_round parse prefer now started readable bufs s in Ended now s' ⊎ Goes r s'
unfolding refresh_round
refresh_round_early parse prefer now started readable bufs r s e early =
    subst
      (λ (t : Refresh).
        let s' = expire_pending_resolve now (read_pending parse prefer now readable bufs t) in
        Ended now s' ⊎ Goes r s')
      (sym (begin-pending now started r s e))
      (read_early parse prefer now readable bufs r s e early)

-- What a round meets.
pub record Round : Type 0 where
  pub now : ℕ
  pub started : Option AsyncResolve
  pub readable : Bool
  pub bufs : List (List ℕ)

abbrev pub after_round : (List ℕ → Option Packet) → Bool → Round → Refresh → Refresh
after_round parse prefer x s = refresh_round parse prefer x.now x.started x.readable x.bufs s
