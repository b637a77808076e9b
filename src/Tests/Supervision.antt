-- ===== src/Tests/Supervision.antt =====
-- The supervisor and the bootstrap resolution at concrete inputs.
use nix_config.Common.{
  ℕ, ◌+◌, ◌*◌, ◌≤◌, ◌≡◌, refl, List, [], ◌∷◌, ◌++◌, map, true, false, Option, none, some, All,
  Sorted, Distinct, find_key, keys_where, remove_key, insert_key, get_or, arith,
}
use mathlib.Core.List.{Perm}
use nix_config.Shared.Address.{IpAddr, v4, v6}
use nix_config.Shared.Upstream.{ip_eq}
use nix_config.Shared.Scores.{ScoreSample}
use nix_config.Worker.Migration.{second}
use nix_config.Supervisor.Restarts.{
  Child, Restart, Fleet, prefork, spawn_worker, due, restart, restart_due, restart_each, reap,
  exited, schedule_child_exit, schedule_exit, Waited, backoff_delay,
}
use nix_config.Supervisor.Restarts.Kept.{workers_on, children_on, restarts_on, Kept}
use nix_config.Supervisor.Restarts.Kept.Rounds.{
  rounds, RoundsFork, Forks, no_workers, listed, Preforks, rounds_workers,
}
use nix_config.Supervisor.Restarts.Kept.Soon.{last_round}
use nix_config.Supervisor.Restarts.Kept.Runs.{RunsIn, restart_due-runs_all}
use nix_config.Supervisor.Restarts.Lost.{restart_fork_fails, schedule_child_exit_twice}
use nix_config.Supervisor.Candidates.{of_family}
use nix_config.Supervisor.Weights.{compute_weights, heavier, measurements, greatest}
use nix_config.Supervisor.Weights.Shares.{addr_of, weight_in, compute_weights_shares}
use nix_config.Supervisor.Weights.Reported.{scores_of, is_some_score, ListedAt, measurements_scores}
use nix_config.Supervisor.Weights.Probe.{three_reports}

abbrev two_cpus : List ℕ
two_cpus = 0 ∷ 1 ∷ []

abbrev first_forks : ℕ → Option ℕ
first_forks idx = some (100 + idx)

abbrev no_forks : ℕ → Option ℕ
no_forks cpu = none

abbrev one_round : List (ℕ × (ℕ → Option ℕ) × List Waited)
one_round = (5 * second, no_forks, exited 100 ∷ []) ∷ []

listed_once : (c : ℕ) → listed c two_cpus ≤ 1
unfolding listed
listed_once c = ground arith

forked : Preforks two_cpus 0 0 first_forks no_workers
unfolding Preforks spawn_worker find_key insert_key remove_key
forked = ((100, refl, refl), ((101, refl, refl), tt))

ordered : RoundsFork 0 one_round (prefork two_cpus 0 0 first_forks no_workers)
unfolding RoundsFork Forks due keys_where prefork spawn_worker
ordered = (omega arith, tt, tt)

rounds_workers_example :
    workers_on 0 (rounds one_round (prefork two_cpus 0 0 first_forks no_workers))
    ≡ listed 0 two_cpus
rounds_workers_example =
    rounds_workers two_cpus 0 first_forks one_round 0 listed_once forked ordered

abbrev next_forks : ℕ → Option ℕ
next_forks cpu = some (200 + cpu)

abbrev one_died : Fleet
one_died = rounds one_round (prefork two_cpus 0 0 first_forks no_workers)

abbrev later_rounds : List (ℕ × (ℕ → Option ℕ) × List Waited)
later_rounds = (6 * second, no_forks, []) ∷ (37 * second, next_forks, []) ∷ []

later_in_order : RoundsFork (5 * second) later_rounds one_died
unfolding RoundsFork Forks due keys_where prefork spawn_worker rounds restart_due restart_each reap
    restart schedule_child_exit schedule_exit backoff_delay find_key insert_key remove_key
later_in_order = (omega arith, tt, (omega arith, ((200, refl, refl), tt), tt))

restart_due-runs_all_example : RunsIn 0 later_rounds one_died
restart_due-runs_all_example =
    restart_due-runs_all two_cpus 0 first_forks one_round later_rounds 0 listed_once forked ordered
      (unfold last_round in later_in_order) (unfold last_round in omega arith)
      (unfold listed in refl)

abbrev scheduled : Restart
scheduled = record { restart_idx = 0; restart_at = 7; fast_failures = 1 }

abbrev one_waits : Fleet
one_waits = record { children = []; pending_restarts = (3, scheduled) ∷ []; shutdown = false }

waits_Kept : Kept one_waits
waits_Kept = record {
  one_each = λ cpu. unfold workers_on children_on restarts_on in ground arith;
  distinct = unfold Distinct in tt;
  running = refl;
}

restart_fork_fails_example :
    (workers_on 3 one_waits ≡ 1) × (workers_on 3 (restart 3 9 none (some scheduled) one_waits) ≡ 0)
restart_fork_fails_example =
    restart_fork_fails 3 9 scheduled one_waits waits_Kept (unfold find_key in refl)

abbrev child : ℕ → Child
child idx = record { cpu = 3; child_idx = idx; started = 0; fails = 0 }

abbrev two_on_three : Fleet
two_on_three = record {
  children = (100, child 0) ∷ (101, child 1) ∷ [];
  pending_restarts = [];
  shutdown = false;
}

schedule_child_exit_twice_example :
    let s' = schedule_child_exit 101 6 (schedule_child_exit 100 5 two_on_three) in
    (children_on 3 s'.children + 2 ≡ children_on 3 two_on_three.children)
    × (restarts_on 3 s'.pending_restarts ≡ 1)
schedule_child_exit_twice_example =
    schedule_child_exit_twice 100 101 5 6 3 (child 0) (child 1) two_on_three
      (unfold Distinct find_key in (refl, (refl, tt))) refl refl (unfold find_key in refl)
      (unfold find_key in refl) refl refl

abbrev mixed : List IpAddr
mixed = v6 (1 ∷ []) ∷ v4 1 1 1 1 ∷ v6 (2 ∷ []) ∷ []

v4_before_v6 :
    of_family false mixed ++ of_family true mixed ≡ v4 1 1 1 1 ∷ v6 (1 ∷ []) ∷ v6 (2 ∷ []) ∷ []
unfolding of_family
v4_before_v6 = refl

abbrev four_addrs : List IpAddr
four_addrs = v4 10 0 0 1 ∷ v4 10 0 0 2 ∷ v4 10 0 0 3 ∷ v4 10 0 0 4 ∷ []

abbrev reports_of : ℕ → List (Option ScoreSample)
reports_of score = three_reports (v4 10 0 0 1) (v4 10 0 0 2) (v4 10 0 0 3) (v4 10 0 0 4) score

compute_weights_shares_example :
    let weights = compute_weights four_addrs (reports_of 900) 4 in
    Perm (map addr_of weights) four_addrs
    × All (λ p. 1 ≤ weight_in p) weights
    × Sorted heavier weights
compute_weights_shares_example = compute_weights_shares four_addrs (reports_of 900) 4

second_listed : ListedAt four_addrs 1 (v4 10 0 0 2)
unfolding ListedAt ip_eq
second_listed = (refl, (refl, tt))

measurements_scores_example :
    let m = measurements four_addrs (reports_of 900) in
    (get_or m.0 1 0 ≡ greatest (scores_of (v4 10 0 0 2) (reports_of 900)))
    × (get_or m.1 1 false ≡ is_some_score (scores_of (v4 10 0 0 2) (reports_of 900)))
measurements_scores_example =
    measurements_scores four_addrs (reports_of 900) 1 (v4 10 0 0 2) second_listed (omega arith)
