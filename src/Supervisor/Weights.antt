-- ===== src/Supervisor/Weights.antt =====
-- main.rs: `compute_weights`, and which samples it is given. A fleet has fewer than `2 ^ 31` workers, so that
-- the division by twice their number, which wraps, is none by 0.
use nix_config.Common.{
  ℕ, ◌+◌, ◌-◌, ◌*◌, ◌/◌, ◌%◌, ◌^◌, ◌≤◌, ◌<◌, ◌≡◌, List, [], ◌∷◌, ◌++◌, Bool, true, false, not, ◌&&◌,
  Option, none, some, if◌then◌else◌, leb, ◌==◌, min, max, length, set, get_or, replicate, sort_by,
}
use nix_config.Shared.Address.{IpAddr}
use nix_config.Shared.Upstream.{ip_position}
use nix_config.Shared.Scores.{ScoreSample}
use nix_config.Worker.Quality.{u32_max}
pub mod Shares
pub mod Reported
pub mod Probe

abbrev pub score_stale_secs : ℕ
score_stale_secs = 30

-- The filter on what `scores.read` gives.
unfoldable pub fresh_sample : ℕ → Option ScoreSample → Option ScoreSample
fresh_sample now_secs none = none
fresh_sample now_secs (some s) =
    if not (s.updated_mono_secs == 0) && leb (now_secs - s.updated_mono_secs) score_stale_secs
    then some s
    else none

-- `best` and `measured`, one entry for each candidate.
abbrev pub Measurements : Type 0
Measurements = List ℕ × List Bool

unfoldable pub measure_at : ℕ → Option ℕ → Measurements → Measurements
measure_at score none (best, measured) = (best, measured)
measure_at score (some i) (best, measured) =
    (set best i (max (get_or best i 0) score), set measured i true)

unfoldable pub measure_addr : List IpAddr → ℕ → Option IpAddr → Measurements → Measurements
measure_addr candidates score none m = m
measure_addr candidates score (some addr) m = measure_at score (ip_position candidates 0 addr) m

unfoldable pub measure : List IpAddr → List (Option ScoreSample) → Measurements → Measurements
measure candidates [] m = m
measure candidates (none ∷ samples) m = measure candidates samples m
measure candidates (some s ∷ samples) m =
    measure candidates samples (measure_addr candidates s.score s.addr m)

unfoldable pub greatest : List ℕ → ℕ
greatest [] = 0
greatest (n ∷ ns) = max n (greatest ns)

unfoldable pub first_unmeasured : List Bool → ℕ → Option ℕ
first_unmeasured [] i = none
first_unmeasured (m ∷ ms) i = let rest = first_unmeasured ms (i + 1) in if m then rest else some i

abbrev pub is_at : ℕ → Option ℕ → Bool
is_at i none = false
is_at i (some j) = i == j

abbrev pub saturating_add : ℕ → ℕ → ℕ
saturating_add a b = min (a + b) u32_max

unfoldable pub weigh : ℕ → ℕ → Option ℕ → ℕ → ℕ → ℕ
weigh floor one_slot probe i best =
    let w = max best floor in if is_at i probe then saturating_add w one_slot else w

unfoldable pub weigh_each : ℕ → ℕ → Option ℕ → ℕ → List ℕ → List IpAddr → List (IpAddr × ℕ)
weigh_each floor one_slot probe i best [] = []
weigh_each floor one_slot probe i best (a ∷ addrs) =
    (a, weigh floor one_slot probe i (get_or best i 0))
    ∷ weigh_each floor one_slot probe (i + 1) best addrs

-- The order of `Reverse(weight)`.
abbrev pub heavier : IpAddr × ℕ → IpAddr × ℕ → Bool
heavier (a, v) (b, w) = leb w v

abbrev pub measurements : List IpAddr → List (Option ScoreSample) → Measurements
measurements candidates samples =
    measure candidates samples
      (replicate (length candidates) 0, replicate (length candidates) false)

unfoldable pub weigh_all : List IpAddr → Measurements → ℕ → List (IpAddr × ℕ)
weigh_all candidates (best, measured) worker_count =
    let top = greatest best in
    let workers = max (worker_count % 2 ^ 32) 1 in
    weigh_each (max (top / (2 * workers % 2 ^ 32)) 1) (top / workers) (first_unmeasured measured 0)
      0 best candidates

unfoldable pub compute_weights : List IpAddr → List (Option ScoreSample) → ℕ → List (IpAddr × ℕ)
compute_weights candidates samples worker_count =
    sort_by heavier (weigh_all candidates (measurements candidates samples) worker_count)
