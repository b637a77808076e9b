-- ===== src/Supervisor/Cpus/Cores.antt =====
-- main.rs: what `physical_cores` finds and how many of its CPUs are chosen.
use nix_config.Common.{
  ℕ, ◌≤◌, ◌<◌, ◌≡◌, ◌⊎◌, List, Bool, ◌&&◌, ◌||◌, Result, ok, ltb, ◌==◌, length, take,
}
use nix_config.Supervisor.Cpus.Plan.{PlanError}

-- By package, and by core in a package.
abbrev pub key_before : ℕ × ℕ × ℕ → ℕ × ℕ × ℕ → Bool
key_before (p, c, e) (q, d, f) = ltb p q || ((p == q) && ltb c d)

-- How many CPUs of a pool are chosen: all of them for 0, else as many as are asked for and there are.
unfoldable pub Count : ℕ → ℕ → ℕ → Type 0
Count workers size n =
    (1 ≤ n)
    × (((workers ≡ 0) × (n ≡ size))
        ⊎ ((1 ≤ workers) × (workers ≤ size) × (n ≡ workers))
        ⊎ ((size < workers) × (n ≡ size)))

abbrev pub Chosen : ℕ → List ℕ → Result PlanError (List ℕ) → Type 0
Chosen workers pool r = (n : ℕ) × (r ≡ ok (take n pool)) × Count workers (length pool) n
