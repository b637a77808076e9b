-- ===== src/Supervisor/Weights/Shares.antt =====
-- main.rs: the weights against the candidates.
use mathlib.Core.List.{Perm}
use mathlib.Core.List.Perm
use nix_config.Common.{
  ◌^◌, ◌%◌, ℕ, ◌+◌, ◌*◌, ◌/◌, ◌≤◌, ◌≡◌, refl, ap, subst, List, [], ◌∷◌, map, true, false, Option,
  max, get_or, All, sort_by, sort_by-Perm, sort_by-All, sort_by-Sorted, Sorted, arith,
}
use nix_config.Shared.Address.{IpAddr}
use nix_config.Shared.Scores.{ScoreSample}
use nix_config.Supervisor.Weights.{
  greatest, first_unmeasured, weigh, weigh_each, heavier, measurements, weigh_all, compute_weights,
}

abbrev pub addr_of : IpAddr × ℕ → IpAddr
addr_of (a, w) = a

abbrev pub weight_in : IpAddr × ℕ → ℕ
weight_in (a, w) = w

weigh_each_addrs :
    (floor one_slot : ℕ) (probe : Option ℕ) (i : ℕ) (best : List ℕ) (addrs : List IpAddr)
    → map addr_of (weigh_each floor one_slot probe i best addrs) ≡ addrs
unfolding weigh_each
weigh_each_addrs floor one_slot probe i best [] = refl
weigh_each_addrs floor one_slot probe i best (a ∷ addrs) =
    ap (λ l. a ∷ l) (weigh_each_addrs floor one_slot probe (i + 1) best addrs)

weigh_some :
    (floor one_slot : ℕ) (probe : Option ℕ) (i best : ℕ)
    → 1 ≤ floor
    → 1 ≤ weigh floor one_slot probe i best
unfolding weigh
weigh_some floor one_slot probe i best h = ground arith

weigh_each_some :
    (floor one_slot : ℕ) (probe : Option ℕ) (i : ℕ) (best : List ℕ) (addrs : List IpAddr)
    → 1 ≤ floor
    → All (λ p. 1 ≤ weight_in p) (weigh_each floor one_slot probe i best addrs)
unfolding weigh_each
weigh_each_some floor one_slot probe i best [] h = tt
weigh_each_some floor one_slot probe i best (a ∷ addrs) h = (
  weigh_some floor one_slot probe i (get_or best i 0) h,
  weigh_each_some floor one_slot probe (i + 1) best addrs h,
)

heavier_total : (p q : IpAddr × ℕ) → heavier p q ≡ false → heavier q p ≡ true
heavier_total (a, v) (b, w) e = ground arith

heavier_trans : (p q r : IpAddr × ℕ) → heavier p q ≡ true → heavier q r ≡ true → heavier p r ≡ true
heavier_trans (a, u) (b, v) (c, w) e f = ground arith

-- Whatever the samples and the number of workers: the result has each candidate once for each time it is a
-- candidate, each with a weight of at least 1, and none stands before a heavier one.
pub compute_weights_shares :
    (candidates : List IpAddr) (samples : List (Option ScoreSample)) (worker_count : ℕ)
    → let weights = compute_weights candidates samples worker_count in
      Perm (map addr_of weights) candidates
      × All (λ p. 1 ≤ weight_in p) weights
      × Sorted heavier weights
unfolding compute_weights weigh_all
compute_weights_shares candidates samples worker_count =
    let (best, measured) = measurements candidates samples in
    let top = greatest best in
    let workers = max (worker_count % 2 ^ 32) 1 in
    let floor = max (top / (2 * workers % 2 ^ 32)) 1 in
    let weighed =
      weigh_each floor (top / workers) (first_unmeasured measured 0) 0 best candidates in
    (
      subst (λ l. Perm (map addr_of (sort_by heavier weighed)) l)
          (weigh_each_addrs floor (top / workers) (first_unmeasured measured 0) 0 best candidates)
          (Perm.map addr_of (sort_by-Perm heavier weighed)),
      sort_by-All heavier (λ p. 1 ≤ weight_in p) weighed
          (weigh_each_some floor (top / workers) (first_unmeasured measured 0) 0 best candidates
            (omega arith)),
      sort_by-Sorted heavier heavier_total heavier_trans weighed,
    )
