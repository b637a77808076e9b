-- ===== src/Worker/Connection/Housekeeping.antt =====
-- worker.rs: `housekeeping`, in its parts, and the timer that calls it. What `read_if_changed` gives
-- and the monotonic clock in seconds are arguments.
use nix_config.Common.{
  ℕ, ◌+◌, ◌-◌, ◌*◌, List, [], ◌∷◌, Bool, true, not, ◌&&◌, Option, none, some, min, if◌then◌else◌,
  leb,
}
use nix_config.Shared.Address.{IpAddr}
use nix_config.Shared.Upstream.{UpstreamSet, slot_for, ip_eq, ip_position}
use nix_config.Shared.Scores.{write}
use nix_config.Worker.Quality.{new_quality, sample, reset_window}
use nix_config.Worker.Migration.{migrate_min_interval, second, migration_target}
use nix_config.Worker.Requests.{Pending, QueuedQuery, expire_pending, expire_queue}
use nix_config.Worker.Connection.{Worker, ConnectReply, unwrap_or, reconnect}
use nix_config.Worker.Connection.Events.{no_pending}

abbrev pub score_interval : ℕ
score_interval = 2 * second

-- `Instant::checked_sub`.
abbrev pub checked_sub : ℕ → ℕ → Option ℕ
checked_sub now d = if leb d now then some (now - d) else none

-- `all(|a| *a != addr)`.
unfoldable pub none_is : IpAddr → List IpAddr → Bool
none_is addr [] = true
none_is addr (a ∷ addrs) = not (ip_eq a addr) && none_is addr addrs

unfoldable pub adopt : ℕ → Option UpstreamSet → Worker → Worker
adopt now none w = w
adopt now (some new) w =
    let moved =
      if none_is w.rt.my_remote new.addrs
      then unwrap_or (checked_sub now migrate_min_interval) now
      else w.rt.last_migrate in
    if no_pending new.addrs then w else record w {
      rt = record w.rt {
        last_migrate = moved;
        slot = unwrap_or (slot_for new w.rt.child_idx) w.rt.slot;
        set = new;
      };
    }

-- The bits of `FLAG_CONNECTED`, `FLAG_HANDSHAKING` and `FLAG_ZERO_RTT`, which are different ones.
unfoldable pub score_flags : Worker → ℕ
score_flags w =
    if w.has_conn
    then 1 + (if w.h3_ready then 0 else 2) + (if w.zero_rtt_offered then 4 else 0)
    else 0

unfoldable pub publish_score : ℕ → ℕ → Worker → Worker
publish_score now mono_secs w =
    if leb score_interval (now - w.rt.last_score)
    then record w {
      scores =
          write w.rt.child_idx (sample (some w.rt.my_remote) (score_flags w) w.requests.quality)
            mono_secs w.scores;
      requests = record w.requests { quality = reset_window w.requests.quality };
      rt = record w.rt { last_score = now };
    }
    else w

-- GOAWAY fully drained.
unfoldable pub drain_goaway : ℕ → Worker → Worker
drain_goaway now w =
    if w.goaway && no_pending w.requests.pending then record w { reconnect_at = some now } else w

unfoldable pub move_to : ℕ → IpAddr → Worker → Worker
move_to now target w = record w {
  rt = record w.rt {
    my_remote = target;
    slot = unwrap_or (ip_position w.rt.set.addrs 0 target) w.rt.slot;
    last_migrate = now;
    fail_streak = 0;
  };
  requests = record w.requests { quality = new_quality };
  reconnect_at = some now;
}

unfoldable pub migrate : ℕ → ℕ → Worker → Worker
migrate now mono_secs w =
    let target =
      migration_target w.rt.set w.rt.my_remote w.rt.fail_streak (now - w.rt.last_migrate) mono_secs
        w.rt.child_idx in
    elim w.reconnect_at [
      | some t ↦ w
      | none ↦ elim target [ none ↦ w | some addr ↦ move_to now addr w ]
    ]

unfoldable pub expire : ℕ → Option UpstreamSet → Worker → Worker
expire now changed w =
    let adopted = adopt now changed (record w { requests = expire_pending now w.requests }) in
    record adopted { requests = expire_queue now adopted.requests }

unfoldable pub housekeeping : ℕ → ℕ → Option UpstreamSet → ConnectReply → Worker → Worker
housekeeping now mono_secs changed reply w =
    reconnect now reply (
      migrate now mono_secs (drain_goaway now (publish_score now mono_secs (expire now changed w))))

-- The timer: `next_timeout` of the library, the reconnect, and the deadlines held.
unfoldable pub earlier : Option ℕ → ℕ → Option ℕ
earlier none t = some t
earlier (some n) t = some (min n t)

unfoldable pub earliest_pending : List (ℕ × Pending) → Option ℕ → Option ℕ
earliest_pending [] next = next
earliest_pending ((k, p) ∷ m) next = earliest_pending m (earlier next p.deadline)

unfoldable pub arm_reconnect : Option ℕ → Option ℕ → Option ℕ
arm_reconnect next none = next
arm_reconnect next (some t) = earlier next t

unfoldable pub arm_front : Option ℕ → List QueuedQuery → Option ℕ
arm_front next [] = next
arm_front next (q ∷ queue) = earlier next q.deadline

unfoldable pub next_wakeup : Option ℕ → Worker → Option ℕ
next_wakeup quic_timeout w =
    arm_front (earliest_pending w.requests.pending (arm_reconnect quic_timeout w.reconnect_at))
      w.requests.queue
