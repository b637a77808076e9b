-- ===== src/Supervisor/Restarts/Kept/Rounds.antt =====
-- main.rs: rounds of the supervisor, from the fork of the first workers on.
use nix_config.Common.{
  ℕ, ◌+◌, ◌≤◌, ◌≡◌, refl, sym, subst, ◌∙◌, List, [], ◌∷◌, false, Option, none, some, if◌then◌else◌,
  ◌==◌, find_key, insert_key, Distinct, remove-absent, arith,
}
use nix_config.Supervisor.Restarts.{
  Restart, Fleet, schedule_child_exit, spawn_worker, due, restart, restart_each, restart_due,
  Waited, exited, signaled, other_status, interrupted, wait_error, reap,
}
use nix_config.Supervisor.Restarts.{prefork}
use nix_config.Supervisor.Restarts.Kept.{
  children_on, restarts_on, workers_on, Kept, Same, Same-trans, schedule-Same, restart-Same,
}

-- Every `fork` of a round succeeds, with a pid that no child has.
unfoldable pub Forks : List ℕ → ℕ → (ℕ → Option ℕ) → Fleet → Type 0
Forks [] now forks s = Unit
Forks (cpu ∷ cpus) now forks s =
    ((pid : ℕ) × (forks cpu ≡ some pid) × (find_key pid s.children ≡ none))
    × Forks cpus now forks (restart cpu now (forks cpu) (find_key cpu s.pending_restarts) s)

pub restart_each-Same :
    (cpus : List ℕ) (now : ℕ) (forks : ℕ → Option ℕ) (s : Fleet)
    → Kept s
    → Forks cpus now forks s
    → Same s (restart_each cpus now forks s)
unfolding restart_each Forks
restart_each-Same [] now forks s k f = (λ cpu. refl, k)
restart_each-Same (cpu ∷ cpus) now forks s k ((pid, forked, fresh), f) =
    let t = restart cpu now (forks cpu) (find_key cpu s.pending_restarts) s in
    let one = first (find_key cpu s.pending_restarts) refl in
    Same-trans s t (restart_each cpus now forks t) one (restart_each-Same cpus now forks t one.1 f)
  where
    first :
        (o : Option Restart)
        → find_key cpu s.pending_restarts ≡ o
        → Same s (restart cpu now (forks cpu) o s)
    first none e = unfold restart in (λ cpu. refl, k)
    first (some r) e = rw forked (restart-Same cpu now pid r s k e fresh)

pub reap-Same : (now : ℕ) (ws : List Waited) (s : Fleet) → Kept s → Same s (reap now ws s)
unfolding reap schedule_child_exit
reap-Same now [] s k = (λ cpu. refl, k)
reap-Same now (exited pid ∷ ws) s k =
    let t = schedule_child_exit pid now s in
    let one = schedule-Same pid now (find_key pid s.children) s k refl in
    Same-trans s t (reap now ws t) one (reap-Same now ws t one.1)
reap-Same now (signaled pid ∷ ws) s k =
    let t = schedule_child_exit pid now s in
    let one = schedule-Same pid now (find_key pid s.children) s k refl in
    Same-trans s t (reap now ws t) one (reap-Same now ws t one.1)
reap-Same now (other_status ∷ ws) s k = (λ cpu. refl, k)
reap-Same now (interrupted ∷ ws) s k = reap-Same now ws s k
reap-Same now (wait_error ∷ ws) s k = (λ cpu. refl, k)

-- The first two steps of a round.
abbrev pub round : ℕ → (ℕ → Option ℕ) → List Waited → Fleet → Fleet
round now forks ws s = reap now ws (restart_due now forks s)

pub round-Same :
    (now : ℕ) (forks : ℕ → Option ℕ) (ws : List Waited) (s : Fleet)
    → Kept s
    → Forks (due now s.pending_restarts) now forks s
    → Same s (round now forks ws s)
unfolding restart_due
round-Same now forks ws s k f =
    let t = restart_due now forks s in
    let one = restart_each-Same (due now s.pending_restarts) now forks s k f in
    Same-trans s t (reap now ws t) one (reap-Same now ws t one.1)

-- The rounds, each with its instant, the pids that `fork` gives and what `waitpid` gives.
unfoldable pub rounds : List (ℕ × (ℕ → Option ℕ) × List Waited) → Fleet → Fleet
rounds [] s = s
rounds ((now, forks, ws) ∷ rest) s = rounds rest (round now forks ws s)

-- The rounds are in the order of time, and their forks succeed.
unfoldable pub RoundsFork : ℕ → List (ℕ × (ℕ → Option ℕ) × List Waited) → Fleet → Type 0
RoundsFork since [] s = Unit
RoundsFork since ((now, forks, ws) ∷ rest) s =
    (since ≤ now)
    × Forks (due now s.pending_restarts) now forks s
    × RoundsFork now rest (round now forks ws s)

pub rounds-Same :
    (since : ℕ) (rs : List (ℕ × (ℕ → Option ℕ) × List Waited)) (s : Fleet)
    → Kept s
    → RoundsFork since rs s
    → Same s (rounds rs s)
unfolding rounds RoundsFork
rounds-Same since [] s k f = (λ cpu. refl, k)
rounds-Same since ((now, forks, ws) ∷ rest) s k (le, f, later) =
    let t = round now forks ws s in
    let one = round-Same now forks ws s k f in
    Same-trans s t (rounds rest t) one (rounds-Same now rest t one.1 later)

abbrev pub no_workers : Fleet
no_workers = record { children = []; pending_restarts = []; shutdown = false }

-- How often a CPU is listed.
unfoldable pub listed : ℕ → List ℕ → ℕ
listed cpu [] = 0
listed cpu (c ∷ cpus) = (if c == cpu then 1 else 0) + listed cpu cpus

unfoldable pub Preforks : List ℕ → ℕ → ℕ → (ℕ → Option ℕ) → Fleet → Type 0
Preforks [] idx now forks s = Unit
Preforks (cpu ∷ cpus) idx now forks s =
    ((pid : ℕ) × (forks idx ≡ some pid) × (find_key pid s.children ≡ none))
    × Preforks cpus (idx + 1) now forks (spawn_worker cpu idx 0 now (forks idx) s)

-- So many more workers on each CPU.
abbrev More : (ℕ → ℕ) → Fleet → Fleet → Type 0
More extra s s' =
    ((cpu : ℕ) → workers_on cpu s' ≡ workers_on cpu s + extra cpu)
    × Distinct s'.children
    × (s'.shutdown ≡ false)

spawn-More :
    (cpu idx fails now pid : ℕ) (s : Fleet)
    → Distinct s.children
    → s.shutdown ≡ false
    → find_key pid s.children ≡ none
    → More (λ c. if cpu == c then 1 else 0) s (spawn_worker cpu idx fails now (some pid) s)
unfolding spawn_worker insert_key workers_on children_on Distinct
spawn-More cpu idx fails now pid s d up fresh =
    rw (remove-absent pid s.children fresh) ((λ c. omega arith), (fresh, d), up)

prefork-More :
    (cpus : List ℕ) (idx now : ℕ) (forks : ℕ → Option ℕ) (s : Fleet)
    → Distinct s.children
    → s.shutdown ≡ false
    → Preforks cpus idx now forks s
    → More (λ cpu. listed cpu cpus) s (prefork cpus idx now forks s)
unfolding prefork Preforks listed
prefork-More [] idx now forks s d up f = ((λ cpu. omega arith), d, up)
prefork-More (cpu ∷ cpus) idx now forks s d up ((pid, forked, fresh), f) =
    let t = spawn_worker cpu idx 0 now (forks idx) s in
    let one : More (λ c. if cpu == c then 1 else 0) s t =
      rw forked (spawn-More cpu idx 0 now pid s d up fresh) in
    let (more, distinct, running) = prefork-More cpus (idx + 1) now forks t one.1 one.2 f in
    ((λ c. omega (arith, more c, one.0 c)), distinct, running)

pub prefork-Kept :
    (cpus : List ℕ) (now : ℕ) (forks : ℕ → Option ℕ)
    → ((cpu : ℕ) → listed cpu cpus ≤ 1)
    → Preforks cpus 0 now forks no_workers
    → let s = prefork cpus 0 now forks no_workers in
      ((cpu : ℕ) → workers_on cpu s ≡ listed cpu cpus) × Kept s
prefork-Kept cpus now forks once f =
    let (more, distinct, running) =
      prefork-More cpus 0 now forks no_workers (unfold Distinct in tt) refl f in
    let same : (cpu : ℕ) → workers_on cpu (prefork cpus 0 now forks no_workers) ≡ listed cpu cpus =
      λ cpu. more cpu ∙ (unfold workers_on children_on restarts_on in omega arith) in
    (
      same,
      record {
        one_each = λ cpu. subst (λ n. n ≤ 1) (sym (same cpu)) (once cpu);
        distinct = distinct;
        running = running;
      },
    )

-- Where each CPU is listed once, no shutdown is asked for and each fork succeeds, with a pid that no child
-- has, and the rounds are in the order of time: a CPU that is listed has exactly one worker after any
-- rounds, running or to be restarted, and another has none.
pub rounds_workers :
    (cpus : List ℕ) (since : ℕ) (forks : ℕ → Option ℕ)
    (rs : List (ℕ × (ℕ → Option ℕ) × List Waited)) (cpu : ℕ)
    → ((c : ℕ) → listed c cpus ≤ 1)
    → Preforks cpus 0 since forks no_workers
    → RoundsFork since rs (prefork cpus 0 since forks no_workers)
    → workers_on cpu (rounds rs (prefork cpus 0 since forks no_workers)) ≡ listed cpu cpus
rounds_workers cpus since forks rs cpu once f later =
    let (started, kept) = prefork-Kept cpus since forks once f in
    (rounds-Same since rs (prefork cpus 0 since forks no_workers) kept later).0 cpu ∙ started cpu
