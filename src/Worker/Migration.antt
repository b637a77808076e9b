-- ===== src/Worker/Migration.antt =====
-- worker.rs: when a worker moves to another address, and to which.
use nix_config.Common.{
  ℕ, ◌*◌, ◌/◌, ◌%◌, ◌<◌, ◌≡◌, ◌↔◌, sym, List, [], ◌∷◌, Bool, true, not, ◌&&◌, ◌||◌, Option, none,
  some, if◌then◌else◌, ltb, leb, ◌==◌, get_elem?, max, arith, ==_iff,
}
use native.Mathlib.Nat.{mod-eq_of_lt}
use nix_config.Shared.Address.{IpAddr}
use nix_config.Shared.Upstream.{UpstreamSet, slot_for, weight_of, ip_eq}

abbrev pub second : ℕ
second = 1_000_000_000

abbrev pub migrate_min_interval : ℕ
migrate_min_interval = 180 * second

abbrev pub migrate_stagger_secs : ℕ
migrate_stagger_secs = 5

abbrev pub migrate_ratio_pct : ℕ
migrate_ratio_pct = 150

abbrev pub fail_migrate_interval : ℕ
fail_migrate_interval = 10 * second

unfoldable pub migration_slot_open : ℕ → ℕ → ℕ → Bool
migration_slot_open now_secs workers idx =
    let n = max workers 1 in let slot = max migrate_stagger_secs 1 in now_secs / slot % n == idx % n

-- `zip`, `filter` and `max_by_key`, which takes the last of several; `best` is the best so far.
unfoldable pub best_loop : List IpAddr → List ℕ → IpAddr → Option (IpAddr × ℕ) → Option (IpAddr × ℕ)
best_loop [] weights current best = best
best_loop (a ∷ addrs) [] current best = best
best_loop (a ∷ addrs) (w ∷ weights) current best =
    let skipped = best_loop addrs weights current best in
    let taken = best_loop addrs weights current (some (a, w)) in
    if ltb 0 w && not (ip_eq a current)
    then (elim best [ none ↦ taken | some (b, v) ↦ if leb v w then taken else skipped ])
    else skipped

unfoldable pub best_alternative : UpstreamSet → IpAddr → Option IpAddr
best_alternative s current = elim (best_loop s.addrs s.weights current none) [
  | none ↦ none
  | some (a, w) ↦ some a
]

-- The fields of `Runtime` that the decision reads, with `since_migrate` and `mono_secs()` as arguments.
unfoldable pub failing_target : UpstreamSet → IpAddr → ℕ → Option IpAddr
failing_target s current since_migrate =
    if ltb since_migrate fail_migrate_interval then none else elim (best_alternative s current) [
      | none ↦ none
      | some alt ↦ if ltb (weight_of s current) (weight_of s alt) then some alt else none
    ]

unfoldable pub assigned : UpstreamSet → ℕ → Option IpAddr
assigned s child_idx = elim (slot_for s child_idx) [
  | none ↦ none
  | some slot ↦ get_elem? s.addrs slot
]

unfoldable pub steady_target : UpstreamSet → IpAddr → ℕ → ℕ → ℕ → Option IpAddr
steady_target s current since_migrate mono_secs child_idx =
    if ltb since_migrate migrate_min_interval
    then none
    else if not (migration_slot_open mono_secs s.workers child_idx)
    then none
    else elim (assigned s child_idx) [
      | none ↦ none
      | some target ↦
          if ip_eq target current
          then none
          else if (weight_of s current == 0)
              || leb (weight_of s current * migrate_ratio_pct) (weight_of s target * 100)
          then some target
          else none
    ]

unfoldable pub migration_target : UpstreamSet → IpAddr → ℕ → ℕ → ℕ → ℕ → Option IpAddr
migration_target s current fail_streak since_migrate mono_secs child_idx =
    if leb 2 fail_streak
    then failing_target s current since_migrate
    else steady_target s current since_migrate mono_secs child_idx

-- Of the workers one may start to migrate at a time, in turns of five seconds.
pub migration_slot_open_iff :
    (now_secs workers idx : ℕ)
    → idx < workers
    → (migration_slot_open now_secs workers idx ≡ true) ↔ (idx ≡ now_secs / 5 % workers)
unfolding migration_slot_open
migration_slot_open_iff now_secs workers idx h =
    let some_worker : max workers 1 ≡ workers = omega arith in
    rw (some_worker, mod-eq_of_lt h)
      ((λ e. sym ((==_iff _ idx).0 e)), (λ e. (==_iff _ idx).1 (sym e)))
