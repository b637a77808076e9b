-- ===== src/Supervisor/Restarts/Kept/Runs.antt =====
-- main.rs: the workers that run after the restarts of a round.
use nix_config.Common.{
  ℕ, zero, suc, ◌+◌, ◌*◌, ◌≤◌, ◌<◌, ◌≡◌, ◌⊎◌, inl, inr, refl, sym, subst, ◌∙◌, List, [], ◌∷◌,
  Bool-cases, Option, leb, All, arith,
}
use nix_config.Worker.Migration.{second}
use nix_config.Supervisor.Restarts.{Fleet, due, restart_due, Waited, prefork}
use nix_config.Supervisor.Restarts.Kept.{children_on, restarts_on, workers_on, Kept}
use nix_config.Supervisor.Restarts.Kept.Rounds.{
  Forks, restart_each-Same, reap-Same, round, rounds, RoundsFork, no_workers, listed, Preforks,
  prefork-Kept, rounds-Same,
}
use nix_config.Supervisor.Restarts.Kept.Soon.{Soon, last_round, rounds-Soon, prefork_pending}
use nix_config.Supervisor.Restarts.Kept.Down.{
  SoonOn, SoonOn-later, All-SoonOn, reap-Down, restart_due-SoonOn, restart_due-none,
}

-- In one of the rounds, a worker runs on the CPU once the restarts of the round are done.
unfoldable pub RunsIn : ℕ → List (ℕ × (ℕ → Option ℕ) × List Waited) → Fleet → Type 0
RunsIn cpu [] s = ⊥
RunsIn cpu ((now, forks, ws) ∷ rest) s =
    (children_on cpu (restart_due now forks s).children ≡ 1)
    ⊎ RunsIn cpu rest (round now forks ws s)

one_of : (c r : ℕ) → c + r ≡ 1 → (c ≡ 1) ⊎ ((c ≡ 0) × (r ≡ 1))
one_of zero r e = inr (refl, omega arith)
one_of (suc c) r e = inl (omega arith)

restart_due-one :
    (cpu now : ℕ) (forks : ℕ → Option ℕ) (s : Fleet)
    → Kept s
    → Forks (due now s.pending_restarts) now forks s
    → workers_on cpu s ≡ 1
    → let t = restart_due now forks s in
      Kept t
      × (workers_on cpu t ≡ 1)
      × ((children_on cpu t.children ≡ 1)
          ⊎ ((children_on cpu t.children ≡ 0) × (restarts_on cpu t.pending_restarts ≡ 1)))
unfolding restart_due workers_on
restart_due-one cpu now forks s k f one =
    let (same, kept) = restart_each-Same (due now s.pending_restarts) now forks s k f in
    (kept, same cpu ∙ one, one_of _ _ (same cpu ∙ one))

rounds_RunsIn :
    (cpu t since : ℕ) (rs : List (ℕ × (ℕ → Option ℕ) × List Waited)) (s : Fleet)
    → Kept s
    → workers_on cpu s ≡ 1
    → All (SoonOn cpu t) s.pending_restarts
    → since < t
    → RoundsFork since rs s
    → t ≤ last_round since rs
    → RunsIn cpu rs s
unfolding RunsIn RoundsFork last_round
rounds_RunsIn cpu t since [] s k one h early f late = absurd (omega arith)
rounds_RunsIn cpu t since ((now, forks, ws) ∷ rest) s k one h early (le, f, later) late =
    let u = restart_due now forks s in
    let (kept, one', either) = restart_due-one cpu now forks s k f one in
    elim either [
      | inl runs ↦ inl runs
      | inr (down, waits) ↦ elim (Bool-cases (leb t now)) [
        | inl reached ↦
            let none_left =
              restart_due-none cpu now forks s
                (SoonOn-later cpu t now s.pending_restarts (ground arith) h) in
            absurd (omega (arith, none_left, waits))
        | inr early' ↦
            let (same, kept') = reap-Same now ws u kept in
            let (down', soon) =
              reap-Down cpu t now ws u kept (down, restart_due-SoonOn cpu t now forks s h) in
            inr (
              rounds_RunsIn cpu t now rest (round now forks ws s) kept' (same cpu ∙ one') soon
                (ground arith) later late)
      ]
    ]

-- Where each CPU is listed once, no shutdown is asked for and each fork succeeds, with a pid that no child
-- has: after any rounds in the order of time, and in any further ones that go on for 32 seconds or more, a
-- CPU that is listed has a worker running once the restarts of one of the further rounds are done.
pub restart_due-runs_all :
    (cpus : List ℕ) (since : ℕ) (forks : ℕ → Option ℕ)
    (rs more : List (ℕ × (ℕ → Option ℕ) × List Waited)) (cpu : ℕ)
    → ((c : ℕ) → listed c cpus ≤ 1)
    → Preforks cpus 0 since forks no_workers
    → let s = rounds rs (prefork cpus 0 since forks no_workers) in
      let t = last_round since rs in
      RoundsFork since rs (prefork cpus 0 since forks no_workers)
      → RoundsFork t more s
      → t + 32 * second ≤ last_round t more
      → listed cpu cpus ≡ 1
      → RunsIn cpu more s
restart_due-runs_all cpus since forks rs more cpu once f ordered further late on_list =
    let p = prefork cpus 0 since forks no_workers in
    let s = rounds rs p in
    let t = last_round since rs in
    let (started, kept) = prefork-Kept cpus since forks once f in
    let (same, kept') = rounds-Same since rs p kept ordered in
    let soon = rounds-Soon since rs p ordered (
      subst (All (Soon (since + 32 * second))) (sym (prefork_pending cpus 0 since forks no_workers))
        tt) in
    rounds_RunsIn cpu (t + 32 * second) t more s kept' (same cpu ∙ started cpu ∙ on_list)
      (All-SoonOn cpu (t + 32 * second) s.pending_restarts soon) (omega arith) further late
