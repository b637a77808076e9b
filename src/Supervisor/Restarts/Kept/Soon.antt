-- ===== src/Supervisor/Restarts/Kept/Soon.antt =====
-- main.rs: the instants of the scheduled restarts, over any rounds.
use nix_config.Common.{
  remove_all, ℕ, ◌+◌, ◌*◌, ◌^◌, ◌≤◌, ◌≡◌, inl, inr, refl, sym, ap, subst, ◌∙◌, List, [], ◌∷◌,
  Bool-cases, Option, none, some, ◌==◌, min, All, find_key, insert_key, remove_key, remove-absent,
  arith,
}
use native.Mathlib.Nat.{pow-le-pow_right}
use nix_config.Worker.Migration.{second}
use nix_config.Supervisor.Restarts.{
  Child, Restart, Fleet, backoff_delay, restart_of, schedule_exit, schedule_child_exit,
  spawn_worker, due, restart, restart_each, restart_due, Waited, exited, signaled, other_status,
  interrupted, wait_error, reap,
}
use nix_config.Supervisor.Restarts.{prefork}
use nix_config.Supervisor.Restarts.Kept.Rounds.{round, rounds, RoundsFork}

abbrev pub Soon : ℕ → ℕ × Restart → Type 0
Soon t (k, r) = r.restart_at ≤ t

All-Soon : (t u : ℕ) (m : List (ℕ × Restart)) → t ≤ u → All (Soon t) m → All (Soon u) m
All-Soon t u [] le h = tt
All-Soon t u ((k, r) ∷ m) le (first, h) = (omega arith, All-Soon t u m le h)

remove-Soon : (t k : ℕ) (m : List (ℕ × Restart)) → All (Soon t) m → All (Soon t) (remove_key k m)
unfolding remove_key
remove-Soon t k [] h = tt
remove-Soon t k ((j, r) ∷ m) (first, h) = elim (Bool-cases (j == k)) [
  | inl same ↦ rw same (remove-Soon t k m h)
  | inr other ↦ rw other (first, remove-Soon t k m h)
]

-- At most 32 seconds.
backoff_delay_bound : (fails : ℕ) → backoff_delay fails ≤ 32 * second
unfolding backoff_delay
backoff_delay_bound fails =
    let bound : 2 ^ min fails 5 ≤ 32 =
      pow-le-pow_right (omega arith) {i = min fails 5} {j = 5} (omega arith) in
    ground (arith, bound)

exit-Soon :
    (pid now : ℕ) (o : Option Child) (s : Fleet)
    → All (Soon (now + 32 * second)) s.pending_restarts
    → All (Soon (now + 32 * second)) (schedule_exit pid now o s).pending_restarts
unfolding schedule_exit insert_key
exit-Soon pid now none s h = h
exit-Soon pid now (some c) s h = elim (Bool-cases s.shutdown) [
  | inl down ↦ rw (schedule_exit, down) h
  | inr up ↦
      let bound = backoff_delay_bound (restart_of now c).fast_failures in
      rw (schedule_exit, up)
        (omega (arith, bound), remove-Soon (now + 32 * second) c.cpu s.pending_restarts h)
]

reap-Soon :
    (now : ℕ) (ws : List Waited) (s : Fleet)
    → All (Soon (now + 32 * second)) s.pending_restarts
    → All (Soon (now + 32 * second)) (reap now ws s).pending_restarts
unfolding reap schedule_child_exit
reap-Soon now [] s h = h
reap-Soon now (exited pid ∷ ws) s h =
    reap-Soon now ws (schedule_child_exit pid now s)
      (exit-Soon pid now (find_key pid s.children) s h)
reap-Soon now (signaled pid ∷ ws) s h =
    reap-Soon now ws (schedule_child_exit pid now s)
      (exit-Soon pid now (find_key pid s.children) s h)
reap-Soon now (other_status ∷ ws) s h = h
reap-Soon now (interrupted ∷ ws) s h = reap-Soon now ws s h
reap-Soon now (wait_error ∷ ws) s h = h

restart_pending :
    (cpu now : ℕ) (pid : Option ℕ) (o : Option Restart) (s : Fleet)
    → find_key cpu s.pending_restarts ≡ o
    → (restart cpu now pid o s).pending_restarts ≡ remove_key cpu s.pending_restarts
unfolding restart spawn_worker
restart_pending cpu now pid none s e = sym (remove-absent cpu s.pending_restarts e)
restart_pending cpu now none (some r) s e = refl
restart_pending cpu now (some pid) (some r) s e = refl

pub restart_each_pending :
    (cpus : List ℕ) (now : ℕ) (forks : ℕ → Option ℕ) (s : Fleet)
    → (restart_each cpus now forks s).pending_restarts ≡ remove_all cpus s.pending_restarts
unfolding restart_each remove_all
restart_each_pending [] now forks s = refl
restart_each_pending (cpu ∷ cpus) now forks s =
    let o = find_key cpu s.pending_restarts in
    restart_each_pending cpus now forks (restart cpu now (forks cpu) o s)
    ∙ ap (remove_all cpus) (restart_pending cpu now (forks cpu) o s refl)

remove_all-Soon :
    (t : ℕ) (ks : List ℕ) (m : List (ℕ × Restart)) → All (Soon t) m → All (Soon t) (remove_all ks m)
unfolding remove_all
remove_all-Soon t [] m h = h
remove_all-Soon t (k ∷ ks) m h = remove_all-Soon t ks (remove_key k m) (remove-Soon t k m h)

round-Soon :
    (now : ℕ) (forks : ℕ → Option ℕ) (ws : List Waited) (s : Fleet)
    → All (Soon (now + 32 * second)) s.pending_restarts
    → All (Soon (now + 32 * second)) (round now forks ws s).pending_restarts
unfolding restart_due
round-Soon now forks ws s h =
    let cpus = due now s.pending_restarts in
    reap-Soon now ws (restart_due now forks s) (
      subst (All (Soon (now + 32 * second))) (sym (restart_each_pending cpus now forks s))
        (remove_all-Soon (now + 32 * second) cpus s.pending_restarts h))

unfoldable pub last_round : ℕ → List (ℕ × (ℕ → Option ℕ) × List Waited) → ℕ
last_round since [] = since
last_round since ((now, forks, ws) ∷ rest) = last_round now rest

pub rounds-Soon :
    (since : ℕ) (rs : List (ℕ × (ℕ → Option ℕ) × List Waited)) (s : Fleet)
    → RoundsFork since rs s
    → All (Soon (since + 32 * second)) s.pending_restarts
    → All (Soon (last_round since rs + 32 * second)) (rounds rs s).pending_restarts
unfolding rounds RoundsFork last_round
rounds-Soon since [] s f h = h
rounds-Soon since ((now, forks, ws) ∷ rest) s (le, f, later) h =
    rounds-Soon now rest (round now forks ws s) later (
      round-Soon now forks ws s
        (All-Soon (since + 32 * second) (now + 32 * second) s.pending_restarts (omega arith) h))

pub prefork_pending :
    (cpus : List ℕ) (idx now : ℕ) (forks : ℕ → Option ℕ) (s : Fleet)
    → (prefork cpus idx now forks s).pending_restarts ≡ s.pending_restarts
unfolding prefork
prefork_pending [] idx now forks s = refl
prefork_pending (cpu ∷ cpus) idx now forks s =
    prefork_pending cpus (idx + 1) now forks (spawn_worker cpu idx 0 now (forks idx) s)
    ∙ spawned (forks idx)
  where
    spawned :
        (pid : Option ℕ) → (spawn_worker cpu idx 0 now pid s).pending_restarts ≡ s.pending_restarts
    spawned none = unfold spawn_worker in refl
    spawned (some pid) = unfold spawn_worker in refl
