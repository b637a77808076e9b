-- ===== src/Supervisor/Restarts.antt =====
-- main.rs: the workers that run and those whose restart is scheduled. What `fork` gives is an argument, as
-- is the instant that is read: the code reads the clock at each step of a round, the model once a round.
use nix_config.Common.{
  ℕ, ◌+◌, ◌-◌, ◌*◌, ◌%◌, ◌^◌, List, [], ◌∷◌, Bool, true, false, Option, none, some, if◌then◌else◌,
  ltb, leb, ◌==◌, min, find_key, insert_key, remove_key, keys_where,
}
use nix_config.Worker.Migration.{second}
pub mod Kept
pub mod Lost

-- The value that `children` has for a pid.
pub record Child : Type 0 where
  pub cpu : ℕ
  pub child_idx : ℕ
  pub started : ℕ
  pub fails : ℕ

-- The value that `pending_restarts` has for a CPU.
pub record Restart : Type 0 where
  pub restart_idx : ℕ
  pub restart_at : ℕ
  pub fast_failures : ℕ

-- `shutdown` is the flag that the signal handler sets.
pub record Fleet : Type 0 where
  pub children : List (ℕ × Child)
  pub pending_restarts : List (ℕ × Restart)
  pub shutdown : Bool

unfoldable pub backoff_delay : ℕ → ℕ
backoff_delay fails = if fails == 0 then 0 else 2 ^ min fails 5 * second

-- `u32` addition.
abbrev pub fails_after : ℕ → ℕ → ℕ
fails_after lived fails = if ltb lived (10 * second) then (fails + 1) % 2 ^ 32 else 0

abbrev pub restart_of : ℕ → Child → Restart
restart_of now c =
    let fails = fails_after (now - c.started) c.fails in
    record {
      restart_idx = c.child_idx;
      restart_at = now + backoff_delay fails;
      fast_failures = fails;
    }

-- On the child that the map has for the pid.
unfoldable pub schedule_exit : ℕ → ℕ → Option Child → Fleet → Fleet
schedule_exit pid now none s = s
schedule_exit pid now (some c) s =
    let removed = record s { children = remove_key pid s.children } in
    if s.shutdown then removed else record removed {
      pending_restarts = insert_key c.cpu (restart_of now c) s.pending_restarts;
    }

unfoldable pub schedule_child_exit : ℕ → ℕ → Fleet → Fleet
schedule_child_exit pid now s = schedule_exit pid now (find_key pid s.children) s

-- The parent's side of `fork`; `none` is its error.
unfoldable pub spawn_worker : ℕ → ℕ → ℕ → ℕ → Option ℕ → Fleet → Fleet
spawn_worker cpu child_idx fails now none s = s
spawn_worker cpu child_idx fails now (some pid) s = record s {
  children =
      insert_key pid (record { cpu = cpu; child_idx = child_idx; started = now; fails = fails })
        s.children;
}

-- The workers of the start, one for each CPU; `forks` gives the pid for an index.
unfoldable pub prefork : List ℕ → ℕ → ℕ → (ℕ → Option ℕ) → Fleet → Fleet
prefork [] idx now forks s = s
prefork (cpu ∷ cpus) idx now forks s =
    prefork cpus (idx + 1) now forks (spawn_worker cpu idx 0 now (forks idx) s)

-- The first step of a round: `forks` gives the pid for a CPU.
unfoldable pub due : ℕ → List (ℕ × Restart) → List ℕ
due now m = keys_where (λ r. leb r.restart_at now) m

unfoldable pub restart : ℕ → ℕ → Option ℕ → Option Restart → Fleet → Fleet
restart cpu now pid none s = s
restart cpu now pid (some r) s =
    spawn_worker cpu r.restart_idx r.fast_failures now pid
      (record s { pending_restarts = remove_key cpu s.pending_restarts })

unfoldable pub restart_each : List ℕ → ℕ → (ℕ → Option ℕ) → Fleet → Fleet
restart_each [] now forks s = s
restart_each (cpu ∷ cpus) now forks s =
    restart_each cpus now forks (restart cpu now (forks cpu) (find_key cpu s.pending_restarts) s)

unfoldable pub restart_due : ℕ → (ℕ → Option ℕ) → Fleet → Fleet
restart_due now forks s = restart_each (due now s.pending_restarts) now forks s

-- What `waitpid` gives, and its errors.
pub data Waited : Type 0 where
  exited : ℕ → Waited
  signaled : ℕ → Waited
  other_status : Waited
  interrupted : Waited
  wait_error : Waited

-- The second step, on what `waitpid` gives one call after the other.
unfoldable pub reap : ℕ → List Waited → Fleet → Fleet
reap now [] s = s
reap now (exited pid ∷ ws) s = reap now ws (schedule_child_exit pid now s)
reap now (signaled pid ∷ ws) s = reap now ws (schedule_child_exit pid now s)
reap now (other_status ∷ ws) s = s
reap now (interrupted ∷ ws) s = reap now ws s
reap now (wait_error ∷ ws) s = s

-- The third step: the fleet, the pids that are sent SIGTERM and then SIGKILL, and whether the loop ends.
unfoldable pub pids : List (ℕ × Child) → List ℕ
pids [] = []
pids ((pid, c) ∷ m) = pid ∷ pids m

unfoldable pub shut_down : Fleet → Fleet × List ℕ × Bool
shut_down s =
    if s.shutdown then (record s { children = [] }, pids s.children, true) else (s, [], false)
