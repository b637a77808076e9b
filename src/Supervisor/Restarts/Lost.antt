-- ===== src/Supervisor/Restarts/Lost.antt =====
-- main.rs: the workers of a CPU after a `fork` that fails, and where a CPU has two of them.
use nix_config.Common.{
  ℕ, ◌+◌, ◌≡◌, sym, subst, ◌∙◌, false, none, some, ◌==◌, find_key, insert_key, remove_key,
  find-remove, Distinct, remove-Distinct, arith,
}
use nix_config.Supervisor.Restarts.{
  Child, Restart, Fleet, schedule_exit, schedule_child_exit, spawn_worker, restart,
}
use nix_config.Supervisor.Restarts.Kept.{
  children_on, restarts_on, workers_on, children_on-remove, restarts_on-remove, restarts_on-find,
  Kept,
}

-- In a fleet that is not shutting down, where no CPU has two workers and no pid two children, a restart
-- that is scheduled and whose `fork` fails: the CPU had one worker, that to be restarted, and has none now,
-- running or to be restarted.
pub restart_fork_fails :
    (cpu now : ℕ) (r : Restart) (s : Fleet)
    → Kept s
    → find_key cpu s.pending_restarts ≡ some r
    → (workers_on cpu s ≡ 1) × (workers_on cpu (restart cpu now none (some r) s) ≡ 0)
unfolding restart spawn_worker workers_on
restart_fork_fails cpu now r s k e =
    let found = restarts_on-find cpu s.pending_restarts r e in
    let one = k.one_each cpu in
    let removed = restarts_on-remove cpu cpu s.pending_restarts in
    (omega (arith, found, one), ground (arith, found, one, removed))

exit_counts :
    (pid now cpu : ℕ) (b : Child) (s : Fleet)
    → Distinct s.children
    → s.shutdown ≡ false
    → find_key pid s.children ≡ some b
    → b.cpu ≡ cpu
    → let s' = schedule_exit pid now (some b) s in
      (children_on cpu s'.children + 1 ≡ children_on cpu s.children)
      × (restarts_on cpu s'.pending_restarts ≡ 1)
unfolding schedule_exit insert_key restarts_on
exit_counts pid now cpu b s d up e same = ground (
  arith,
  children_on-remove cpu pid s.children b d e,
  restarts_on-remove cpu b.cpu s.pending_restarts,
)

exit_state :
    (pid now : ℕ) (b : Child) (s : Fleet)
    → let s' = schedule_exit pid now (some b) s in
      (s'.children ≡ remove_key pid s.children) × (s'.shutdown ≡ s.shutdown)
unfolding schedule_exit
exit_state pid now b s = ground arith

-- Two workers on one CPU, as `--cpus` may list one twice, which both die before either is restarted: while
-- no shutdown is asked for, the CPU then has one restart scheduled, of the two.
pub schedule_child_exit_twice :
    (p q at later cpu : ℕ) (b c : Child) (s : Fleet)
    → Distinct s.children
    → s.shutdown ≡ false
    → (p == q) ≡ false
    → find_key p s.children ≡ some b
    → find_key q s.children ≡ some c
    → b.cpu ≡ cpu
    → c.cpu ≡ cpu
    → let s' = schedule_child_exit q later (schedule_child_exit p at s) in
      (children_on cpu s'.children + 2 ≡ children_on cpu s.children)
      × (restarts_on cpu s'.pending_restarts ≡ 1)
unfolding schedule_child_exit
schedule_child_exit_twice p q at later cpu b c s d up other e f on on' =
    let t = schedule_exit p at (some b) s in
    let (children, flag) = exit_state p at b s in
    let (fewer, one) = exit_counts p at cpu b s d up e on in
    let found : find_key q t.children ≡ some c =
      rw (children, find-remove p q s.children, other) f in
    let (fewer', one') =
      exit_counts q later cpu c t
        (subst (λ m. Distinct m) (sym children) (remove-Distinct p s.children d)) (flag ∙ up) found
        on' in
    rw (e, found) (omega (arith, fewer, fewer'), one')
