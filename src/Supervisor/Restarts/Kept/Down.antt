-- ===== src/Supervisor/Restarts/Kept/Down.antt =====
-- main.rs: a CPU on which no worker runs, and the instants of its restarts.
use nix_config.Common.{
  remove_all, Fails, remove_all-keys_where, ℕ, ◌≤◌, ◌≡◌, inl, inr, refl, sym, ap, subst, ◌∙◌, List,
  [], ◌∷◌, Bool-cases, Option, none, some, leb, ◌==◌, ==_iff, All, find_key, insert_key, remove_key,
  arith,
}
use nix_config.Supervisor.Restarts.{
  Child, Restart, Fleet, schedule_exit, schedule_child_exit, due, restart_due, Waited, exited,
  signaled, other_status, interrupted, wait_error, reap,
}
use nix_config.Supervisor.Restarts.Kept.{
  children_on, children_on-remove, restarts_on, Kept, schedule-Same,
}
use nix_config.Supervisor.Restarts.Kept.Soon.{Soon, restart_each_pending}

-- The restarts of one CPU come at an instant or before it.
abbrev pub SoonOn : ℕ → ℕ → ℕ × Restart → Type 0
SoonOn cpu t (k, r) = k ≡ cpu → r.restart_at ≤ t

pub All-SoonOn : (cpu t : ℕ) (m : List (ℕ × Restart)) → All (Soon t) m → All (SoonOn cpu t) m
All-SoonOn cpu t [] h = tt
All-SoonOn cpu t ((k, r) ∷ m) (first, h) = (λ e. first, All-SoonOn cpu t m h)

pub SoonOn-later :
    (cpu t u : ℕ) (m : List (ℕ × Restart)) → t ≤ u → All (SoonOn cpu t) m → All (SoonOn cpu u) m
SoonOn-later cpu t u [] le h = tt
SoonOn-later cpu t u ((k, r) ∷ m) le (first, h) =
    (λ e. omega (arith, first e), SoonOn-later cpu t u m le h)

remove-SoonOn :
    (cpu t k : ℕ) (m : List (ℕ × Restart))
    → All (SoonOn cpu t) m
    → All (SoonOn cpu t) (remove_key k m)
unfolding remove_key
remove-SoonOn cpu t k [] h = tt
remove-SoonOn cpu t k ((j, r) ∷ m) (first, h) = elim (Bool-cases (j == k)) [
  | inl same ↦ rw same (remove-SoonOn cpu t k m h)
  | inr other ↦ rw other (first, remove-SoonOn cpu t k m h)
]

remove_all-SoonOn :
    (cpu t : ℕ) (ks : List ℕ) (m : List (ℕ × Restart))
    → All (SoonOn cpu t) m
    → All (SoonOn cpu t) (remove_all ks m)
unfolding remove_all
remove_all-SoonOn cpu t [] m h = h
remove_all-SoonOn cpu t (k ∷ ks) m h =
    remove_all-SoonOn cpu t ks (remove_key k m) (remove-SoonOn cpu t k m h)

-- While no worker runs on the CPU, an exit schedules no restart of it.
abbrev pub Down : ℕ → ℕ → Fleet → Type 0
Down cpu t s = (children_on cpu s.children ≡ 0) × All (SoonOn cpu t) s.pending_restarts

exit-Down :
    (cpu t pid now : ℕ) (o : Option Child) (s : Fleet)
    → Kept s
    → find_key pid s.children ≡ o
    → Down cpu t s
    → Down cpu t (schedule_exit pid now o s)
unfolding schedule_exit insert_key
exit-Down cpu t pid now none s k e d = d
exit-Down cpu t pid now (some c) s k e (none_on, h) =
    let removed = children_on-remove cpu pid s.children c k.distinct e in
    let gone : children_on cpu (remove_key pid s.children) ≡ 0 = omega (arith, removed, none_on) in
    rw (schedule_exit, k.running)
      (
        gone,
        (
          λ same. absurd (ground (arith, removed, none_on, same)),
          remove-SoonOn cpu t c.cpu s.pending_restarts h,
        ),
      )

pub reap-Down :
    (cpu t now : ℕ) (ws : List Waited) (s : Fleet)
    → Kept s
    → Down cpu t s
    → Down cpu t (reap now ws s)
unfolding reap schedule_child_exit
reap-Down cpu t now [] s k d = d
reap-Down cpu t now (exited pid ∷ ws) s k d =
    let one = schedule-Same pid now (find_key pid s.children) s k refl in
    reap-Down cpu t now ws (schedule_child_exit pid now s) one.1
      (exit-Down cpu t pid now (find_key pid s.children) s k refl d)
reap-Down cpu t now (signaled pid ∷ ws) s k d =
    let one = schedule-Same pid now (find_key pid s.children) s k refl in
    reap-Down cpu t now ws (schedule_child_exit pid now s) one.1
      (exit-Down cpu t pid now (find_key pid s.children) s k refl d)
reap-Down cpu t now (other_status ∷ ws) s k d = d
reap-Down cpu t now (interrupted ∷ ws) s k d = reap-Down cpu t now ws s k d
reap-Down cpu t now (wait_error ∷ ws) s k d = d

-- Where its restarts have been due, a CPU has none left.
due-none :
    (cpu later : ℕ) (m : List (ℕ × Restart))
    → All (Fails (λ (r : Restart). leb r.restart_at later)) m
    → All (SoonOn cpu later) m
    → restarts_on cpu m ≡ 0
unfolding restarts_on
due-none cpu later [] f h = refl
due-none cpu later ((k, r) ∷ m) (fails, f) (soon, h) = elim (Bool-cases (k == cpu)) [
  | inl same ↦ let when = soon ((==_iff k cpu).0 same) in absurd (ground (arith, when))
  | inr other ↦ rw other (omega (arith, due-none cpu later m f h))
]

pub restart_due-SoonOn :
    (cpu t now : ℕ) (forks : ℕ → Option ℕ) (s : Fleet)
    → All (SoonOn cpu t) s.pending_restarts
    → All (SoonOn cpu t) (restart_due now forks s).pending_restarts
unfolding restart_due
restart_due-SoonOn cpu t now forks s h =
    let cpus = due now s.pending_restarts in
    subst (All (SoonOn cpu t)) (sym (restart_each_pending cpus now forks s))
      (remove_all-SoonOn cpu t cpus s.pending_restarts h)

pub restart_due-none :
    (cpu later : ℕ) (forks : ℕ → Option ℕ) (s : Fleet)
    → All (SoonOn cpu later) s.pending_restarts
    → restarts_on cpu (restart_due later forks s).pending_restarts ≡ 0
unfolding restart_due due
restart_due-none cpu later forks s h =
    let cpus = due later s.pending_restarts in
    ap (restarts_on cpu) (restart_each_pending cpus later forks s)
    ∙ due-none cpu later (remove_all cpus s.pending_restarts)
        (remove_all-keys_where (λ r. leb r.restart_at later) s.pending_restarts)
        (remove_all-SoonOn cpu later cpus s.pending_restarts h)
