-- ===== src/Supervisor/Cpus/Plan.antt =====
-- main.rs: `physical_cores`, and the CPUs that `main` chooses.
use nix_config.Common.{
  ℕ, zero, suc, ◌+◌, ◌-◌, ◌%◌, ◌^◌, List, [], ◌∷◌, Bool, ◌&&◌, ◌||◌, Option, none, some, Result, ok,
  err, if◌then◌else◌, ltb, leb, ◌==◌, min, max, length, take, sort_by, codes, trim, split_on,
  dec_digit, radix_digits, parse_radix,
}
use nix_config.Url.{strip_prefix}
use nix_config.Supervisor.Cpus.{u32_limit}

-- An entry of the directory of the CPUs, with the two files of its topology.
pub record CpuEntry : Type 0 where
  pub name : Option (List ℕ)
  pub physical_package_id : Option (List ℕ)
  pub core_id : Option (List ℕ)

-- An `i64` is its value and `2 ^ 63`.
unfoldable pub parse_i64 : List ℕ → Option ℕ
parse_i64 [] = none
parse_i64 (c ∷ s) =
    if c == 45
    then (elim s [
      | [] ↦ none
      | d ∷ ds ↦ elim (radix_digits 10 dec_digit (2 ^ 63 + 1) (d ∷ ds) 0) [
        | none ↦ none
        | some n ↦ some (2 ^ 63 - n)
      ]
    ])
    else (elim (parse_radix 10 dec_digit (2 ^ 63) (c ∷ s)) [
      | none ↦ none
      | some n ↦ some (2 ^ 63 + n)
    ])

abbrev pub topology_id : Option (List ℕ) → Option ℕ
topology_id none = none
topology_id (some text) = parse_i64 (trim text)

-- The number in a name such as `cpu7`.
abbrev pub suffix_number : Option (List ℕ) → Option ℕ
suffix_number none = none
suffix_number (some digits) = parse_radix 10 dec_digit u32_limit digits

abbrev pub cpu_number : Option (List ℕ) → Option ℕ
cpu_number none = none
cpu_number (some name) = suffix_number (strip_prefix (codes "cpu") name)

-- The `BTreeMap`: by package and core, the least CPU.
unfoldable pub add_core : ℕ → ℕ → ℕ → List (ℕ × ℕ × ℕ) → List (ℕ × ℕ × ℕ)
add_core pkg core cpu [] = (pkg, core, cpu) ∷ []
add_core pkg core cpu ((p, c, e) ∷ cores) =
    let rest = add_core pkg core cpu cores in
    if (p == pkg) && (c == core)
    then (p, c, min e cpu) ∷ cores
    else if ltb pkg p || ((pkg == p) && ltb core c)
    then (pkg, core, cpu) ∷ (p, c, e) ∷ cores
    else (p, c, e) ∷ rest

abbrev pub Scan : Type 0
Scan = List (ℕ × ℕ × ℕ) × List ℕ

abbrev pub with_core : ℕ → Option ℕ → Option ℕ → List (ℕ × ℕ × ℕ) → List (ℕ × ℕ × ℕ)
with_core cpu none core cores = cores
with_core cpu (some pkg) none cores = cores
with_core cpu (some pkg) (some core) cores = add_core pkg core cpu cores

abbrev pub scan_cpu : Option ℕ → CpuEntry → Scan → Scan
scan_cpu none e scan = scan
scan_cpu (some cpu) e (cores, fallback) = (
  with_core cpu (topology_id e.physical_package_id) (topology_id e.core_id) cores,
  cpu ∷ fallback,
)

unfoldable pub scan_cpus : List CpuEntry → Scan → Scan
scan_cpus [] scan = scan
scan_cpus (e ∷ entries) scan = scan_cpus entries (scan_cpu (cpu_number e.name) e scan)

unfoldable pub cores_of : List (ℕ × ℕ × ℕ) → List ℕ
cores_of [] = []
cores_of ((pkg, core, cpu) ∷ cores) = cpu ∷ cores_of cores

unfoldable pub numbers_below : ℕ → ℕ → List ℕ
numbers_below zero i = []
numbers_below (suc n) i = i ∷ numbers_below n (i + 1)

abbrev pub chosen_cores : Scan → ℕ → List ℕ
chosen_cores ([], []) parallelism = numbers_below (parallelism % u32_limit) 0
chosen_cores ([], cpu ∷ fallback) parallelism = sort_by leb (cpu ∷ fallback)
chosen_cores (core ∷ cores, fallback) parallelism = cores_of (core ∷ cores)

abbrev pub entries_of : Option (List CpuEntry) → List CpuEntry
entries_of none = []
entries_of (some entries) = entries

-- `parallelism` is what the standard library finds, or 1.
unfoldable pub physical_cores : Option (List CpuEntry) → ℕ → List ℕ
physical_cores dir parallelism = chosen_cores (scan_cpus (entries_of dir) ([], [])) parallelism

pub data PlanError : Type 0 where
  invalid_cpus panic_on_pool : PlanError

unfoldable pub parse_each : List (List ℕ) → Option (List ℕ)
parse_each [] = some []
parse_each (part ∷ parts) = elim (parse_radix 10 dec_digit u32_limit (trim part)) [
  | none ↦ none
  | some cpu ↦ elim (parse_each parts) [ none ↦ none | some cpus ↦ some (cpu ∷ cpus) ]
]

-- `--cpus`; the list has a part at least.
unfoldable pub listed_cpus : List ℕ → Result PlanError (List ℕ)
listed_cpus text = elim (parse_each (split_on 44 text)) [
  | none ↦ err invalid_cpus
  | some cpus ↦ elim cpus [ [] ↦ err invalid_cpus | c ∷ cs ↦ ok (c ∷ cs) ]
]

-- The slice of the pool; `workers` is `--workers`.
abbrev pub first_cpus : List ℕ → ℕ → Result PlanError (List ℕ)
first_cpus [] workers = err panic_on_pool
first_cpus (c ∷ pool) workers =
    let n = if workers == 0 then length (c ∷ pool) else min workers (length (c ∷ pool)) in
    ok (take (max n 1) (c ∷ pool))

abbrev pub pool_of : List ℕ → List ℕ → List ℕ
pool_of cores [] = cores
pool_of cores (c ∷ from_xps) = c ∷ from_xps

-- `from_xps` is what `xps_worker_cpus` gives.
unfoldable pub choose_cpus :
    Option (List ℕ) → Bool → List ℕ → List ℕ → ℕ → Result PlanError (List ℕ)
choose_cpus (some text) xps from_xps cores workers = listed_cpus text
choose_cpus none xps from_xps cores workers =
    first_cpus (pool_of cores (if xps then from_xps else [])) workers
