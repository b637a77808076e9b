-- ===== src/Supervisor/Restarts/Kept.antt =====
-- main.rs: how many workers a CPU has, running or to be restarted, over each step of the supervisor.
use nix_config.Common.{
  ℕ, zero, suc, ◌+◌, ◌-◌, ◌*◌, ◌^◌, ◌%◌, ◌≤◌, ◌<◌, ◌≡◌, ◌⊎◌, inl, inr, refl, sym, ap, subst, ◌∙◌,
  List, [], ◌∷◌, Bool, true, false, Bool-cases, Option-cases, Option, none, some, some-injective,
  none≢some, if◌then◌else◌, ltb, leb, ◌==◌, ==_iff, min, All, length, find_key, insert_key,
  remove_key, find-remove, Distinct, remove-absent, remove-Distinct, arith,
}
use nix_config.Worker.Migration.{second}
use nix_config.Supervisor.Restarts.{
  Child, Restart, Fleet, backoff_delay, restart_of, schedule_exit, schedule_child_exit,
  spawn_worker, due, restart, restart_each, restart_due, Waited, exited, signaled, other_status,
  interrupted, wait_error, reap,
}
pub mod Rounds
pub mod Soon
pub mod Down
pub mod Runs

unfoldable pub children_on : ℕ → List (ℕ × Child) → ℕ
children_on cpu [] = 0
children_on cpu ((pid, c) ∷ m) = (if c.cpu == cpu then 1 else 0) + children_on cpu m

unfoldable pub restarts_on : ℕ → List (ℕ × Restart) → ℕ
restarts_on cpu [] = 0
restarts_on cpu ((k, r) ∷ m) = (if k == cpu then 1 else 0) + restarts_on cpu m

-- The workers that a CPU has, running or to be restarted.
unfoldable pub workers_on : ℕ → Fleet → ℕ
workers_on cpu s = children_on cpu s.children + restarts_on cpu s.pending_restarts

pub children_on-remove :
    (cpu pid : ℕ) (m : List (ℕ × Child)) (c : Child)
    → Distinct m
    → find_key pid m ≡ some c
    → children_on cpu (remove_key pid m) + (if c.cpu == cpu then 1 else 0) ≡ children_on cpu m
unfolding children_on find_key remove_key Distinct
children_on-remove cpu pid [] c d e = cc
children_on-remove cpu pid ((j, b) ∷ m) c (gone, d) e = elim (Bool-cases (j == pid)) [
  | inl same ↦
      let same' : j ≡ pid = (==_iff j pid).0 same in
      let found : b ≡ c = some-injective (rw same at e) in
      rw (same, remove-absent pid m (rw same' at gone), found) (omega arith)
  | inr other ↦ rw other (omega (arith, children_on-remove cpu pid m c d (rw other at e)))
]

pub restarts_on-remove :
    (cpu k : ℕ) (m : List (ℕ × Restart))
    → restarts_on cpu (remove_key k m) ≡ (if k == cpu then 0 else restarts_on cpu m)
unfolding restarts_on remove_key
restarts_on-remove cpu k [] = ground arith
restarts_on-remove cpu k ((j, r) ∷ m) = ground (arith, restarts_on-remove cpu k m)

pub restarts_on-find :
    (k : ℕ) (m : List (ℕ × Restart)) (r : Restart) → find_key k m ≡ some r → 1 ≤ restarts_on k m
unfolding restarts_on find_key
restarts_on-find k [] r e = cc
restarts_on-find k ((j, q) ∷ m) r e = ground (arith, restarts_on-find k m r)

-- No CPU has two workers, no pid two children, and the supervisor is not shutting down.
pub record Kept (s : Fleet) : Type 0 where
  pub one_each : (cpu : ℕ) → workers_on cpu s ≤ 1
  pub distinct : Distinct s.children
  pub running : s.shutdown ≡ false

-- A CPU has as many workers as before, and the fleet is kept.
abbrev pub Same : Fleet → Fleet → Type 0
Same s s' = ((cpu : ℕ) → workers_on cpu s' ≡ workers_on cpu s) × Kept s'

Kept-Same :
    (s s' : Fleet)
    → Kept s
    → ((cpu : ℕ) → workers_on cpu s' ≡ workers_on cpu s)
    → Distinct s'.children
    → s'.shutdown ≡ s.shutdown
    → Same s s'
Kept-Same s s' k same d up = (
  same,
  record {
    one_each = λ cpu. subst (λ n. n ≤ 1) (sym (same cpu)) (k.one_each cpu);
    distinct = d;
    running = up ∙ k.running;
  },
)

pub Same-trans : (s t u : Fleet) → Same s t → Same t u → Same s u
Same-trans s t u (a, k) (b, l) = (λ cpu. b cpu ∙ a cpu, l)

exit_workers :
    (pid now cpu : ℕ) (c : Child) (s : Fleet)
    → Kept s
    → find_key pid s.children ≡ some c
    → workers_on cpu (schedule_exit pid now (some c) s) ≡ workers_on cpu s
unfolding schedule_exit workers_on insert_key restarts_on
exit_workers pid now cpu c s k e = ground (
  arith,
  children_on-remove cpu pid s.children c k.distinct e,
  restarts_on-remove cpu c.cpu s.pending_restarts,
  k.one_each cpu,
)

exit_children :
    (pid now : ℕ) (c : Child) (s : Fleet)
    → let s' = schedule_exit pid now (some c) s in
      (s'.children ≡ remove_key pid s.children) × (s'.shutdown ≡ s.shutdown)
unfolding schedule_exit
exit_children pid now c s = ground arith

pub schedule-Same :
    (pid now : ℕ) (o : Option Child) (s : Fleet)
    → Kept s
    → find_key pid s.children ≡ o
    → Same s (schedule_exit pid now o s)
schedule-Same pid now none s k e = unfold schedule_exit in (λ cpu. refl, k)
schedule-Same pid now (some c) s k e =
    Kept-Same s (schedule_exit pid now (some c) s) k (λ cpu. exit_workers pid now cpu c s k e)
      (subst (λ m. Distinct m) (sym (exit_children pid now c s).0)
        (remove-Distinct pid s.children k.distinct))
      (exit_children pid now c s).1

-- The pid that `fork` gives is not that of a child.
restart_workers :
    (cpu now pid c : ℕ) (r : Restart) (s : Fleet)
    → Kept s
    → find_key cpu s.pending_restarts ≡ some r
    → find_key pid s.children ≡ none
    → workers_on c (restart cpu now (some pid) (some r) s) ≡ workers_on c s
unfolding restart spawn_worker workers_on insert_key children_on
restart_workers cpu now pid c r s k e fresh =
    let found = restarts_on-find cpu s.pending_restarts r e in
    let one = k.one_each cpu in
    let removed = restarts_on-remove c cpu s.pending_restarts in
    rw (remove-absent pid s.children fresh, removed)
      (elim (Bool-cases (cpu == c)) [
        | inl same ↦
            let same' : cpu ≡ c = (==_iff cpu c).0 same in
            rw same (omega (arith, rw same' at found, rw same' at one))
        | inr other ↦ rw other (omega arith)
      ])

pub restart-Same :
    (cpu now pid : ℕ) (r : Restart) (s : Fleet)
    → Kept s
    → find_key cpu s.pending_restarts ≡ some r
    → find_key pid s.children ≡ none
    → Same s (restart cpu now (some pid) (some r) s)
restart-Same cpu now pid r s k e fresh =
    Kept-Same s (restart cpu now (some pid) (some r) s) k
      (λ c. restart_workers cpu now pid c r s k e fresh)
      (unfold restart spawn_worker insert_key Distinct in
        rw (remove-absent pid s.children fresh) (fresh, k.distinct))
      (unfold restart spawn_worker in refl)
