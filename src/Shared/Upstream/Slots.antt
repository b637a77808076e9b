-- ===== src/Shared/Upstream/Slots.antt =====
-- shared.rs: the interval of cumulative weights that `slot_for` picks.
use nix_config.Common.{
  ℕ, suc, ◌+◌, ◌-◌, ◌*◌, ◌%◌, ◌^◌, ◌≤◌, ◌<◌, ◌≡◌, List, [], ◌∷◌, some, ltb, length, take, arith,
  min, max, length-take, take_all, inl, inr, Bool-cases,
}
use native.Mathlib.Nat.{
  div-add-mod, mod-lt, mul-le-mul_left, mul-le-mul_right, lt_of_mul-lt-mul_left,
}
use nix_config.Shared.Upstream.{UpstreamSet, total, slot_loop, slot_target, slot_for}

slot_loop_bound :
    (ws : List ℕ) (i acc target last : ℕ)
    → last < i + length ws
    → slot_loop ws i acc target last < i + length ws
unfolding slot_loop
slot_loop_bound [] i acc target last h = h
slot_loop_bound (w ∷ ws) i acc target last h =
    ground (arith, slot_loop_bound ws (i + 1) (acc + w) target last)

slot_loop_interval :
    (ws : List ℕ) (i acc target last : ℕ)
    → acc ≤ target
    → target < acc + total ws
    → (k : ℕ) × (slot_loop ws i acc target last ≡ i + k)
      × (k < length ws)
      × (acc + total (take k ws) ≤ target)
      × (target < acc + total (take (suc k) ws))
unfolding slot_loop total
slot_loop_interval [] i acc target last lo hi = absurd (omega arith)
slot_loop_interval (w ∷ ws) i acc target last lo hi = elim (Bool-cases (ltb target (acc + w))) [
  | inl e ↦ (0, rw e (omega arith), omega arith, omega arith, ground arith)
  | inr e ↦
      let (k, found, inside, lower, upper) =
        slot_loop_interval ws (i + 1) (acc + w) target last (ground arith) (omega arith) in
      (suc k, rw e (omega arith), omega arith, omega arith, omega arith)
]

-- Whatever the weights, the slot that `slot_for` returns is an index of both lists.
pub slot_for_bound :
    (s : UpstreamSet) (idx i : ℕ)
    → slot_for s idx ≡ some i
    → (i < length s.addrs) × (i < length s.weights)
unfolding slot_for
slot_for_bound s idx i e =
    let n = min (length s.addrs) (length s.weights) in
    let sum = total (take n s.weights) in
    let inside : length (take n s.weights) ≡ n = omega (arith, length-take n s.weights) in
    let bound =
      slot_loop_bound (take n s.weights) 0 0 (slot_target idx sum (max s.workers 1)) (n - 1) in
    ground (arith, inside, bound, below idx n)
  where
    below : (i n : ℕ) → 0 < n → i % n < n
    below i n h = mod-lt i h

-- A set with one weight for each address, some of them not zero: worker `idx` of `workers` gets the slot
-- `k` whose interval of cumulative weights contains `(idx + 0.5) / workers` of the total weight, both
-- sides multiplied by `2 * workers`; so slot `k` has a weight other than zero. The product of the index
-- and the total weight does not overflow.
pub slot_for_interval :
    (s : UpstreamSet) (idx : ℕ)
    → length s.weights ≡ length s.addrs
    → idx < s.workers
    → 0 < total s.weights
    → (2 * idx + 1) * total s.weights < 2 ^ 64
    → (k : ℕ) × (slot_for s idx ≡ some k)
      × (k < length s.addrs)
      × (total (take k s.weights) * (2 * s.workers) ≤ (2 * idx + 1) * total s.weights)
      × ((2 * idx + 1) * total s.weights < total (take (suc k) s.weights) * (2 * s.workers))
unfolding slot_for slot_target
slot_for_interval s idx same member some_weight fits =
    let n = min (length s.addrs) (length s.weights) in
    let whole : take n s.weights ≡ s.weights = take_all n s.weights (omega arith) in
    let sum = total s.weights in
    let d = 2 * s.workers in
    let target = slot_target idx sum (max s.workers 1) in
    let floor : (d * target ≤ (2 * idx + 1) * sum) × ((2 * idx + 1) * sum < d * target + d) =
      unfold slot_target in target_floor idx sum s.workers (omega arith) fits in
    let (k, found, inside, lower, upper) =
      slot_loop_interval s.weights 0 0 target (n - 1) (omega arith)
        (inside_total idx sum s.workers target member some_weight floor.0) in
    (
      k,
      rw whole (ground (arith, found)),
      omega arith,
      omega (arith, mul-le-mul_left d lower),
      omega (arith, mul-le-mul_left d upper),
    )
  where
    target_floor :
        (idx sum workers : ℕ)
        → 0 < workers
        → (2 * idx + 1) * sum < 2 ^ 64
        → (2 * workers * slot_target idx sum (max workers 1) ≤ (2 * idx + 1) * sum)
          × ((2 * idx + 1) * sum < 2 * workers * slot_target idx sum (max workers 1) + 2 * workers)
    target_floor idx sum workers some_worker fits =
        let a : ℕ = (2 * idx + 1) * sum in
        let kept : a % 2 ^ 64 ≡ a = omega arith in
        let one : max workers 1 ≡ workers = omega arith in
        let positive : 0 < 2 * workers = omega arith in
        let below = mod-lt a positive in
        rw (kept, one)
          (
            omega (arith, div-add-mod a (2 * workers)),
            omega (arith, div-add-mod a (2 * workers), below),
          )

    inside_total :
        (idx sum workers target : ℕ)
        → idx < workers
        → 0 < sum
        → 2 * workers * target ≤ (2 * idx + 1) * sum
        → target < 0 + sum
    inside_total idx sum workers target member some_weight low =
        let most : (2 * idx + 2) * sum ≤ 2 * workers * sum = mul-le-mul_right sum (omega arith) in
        omega
          (arith, lt_of_mul-lt-mul_left (2 * workers) {m = target} {n = sum} (omega (arith, most)))
