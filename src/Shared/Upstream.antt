-- ===== src/Shared/Upstream.antt =====
-- shared.rs: `UpstreamSet`, with the weighted choice of an address. `u64` products wrap.
use nix_config.Common.{
  ℕ, zero, suc, ◌+◌, ◌-◌, ◌*◌, ◌/◌, ◌%◌, ◌^◌, ◌≤◌, ◌<◌, ◌≡◌, refl, List, [], ◌∷◌, ◌++◌, Bool, true,
  false, Option, none, some, if◌then◌else◌, ltb, ◌==◌, length, take, get_or, arith, ◌&&◌, bytes_eq,
  min, max,
}
use nix_config.Shared.Address.{IpAddr, v4, v6}
pub mod Slots
pub mod Equal

pub record UpstreamSet : Type 0 where
  pub addrs : List IpAddr
  pub weights : List ℕ
  pub revision : ℕ
  pub workers : ℕ
  pub published_mono_secs : ℕ

unfoldable pub total : List ℕ → ℕ
total [] = 0
total (w ∷ ws) = w + total ws

-- The loop of `slot_for`; `last` is the result where no interval contains the target.
unfoldable pub slot_loop : List ℕ → ℕ → ℕ → ℕ → ℕ → ℕ
slot_loop [] i acc target last = last
slot_loop (w ∷ ws) i acc target last =
    let rest = slot_loop ws (i + 1) (acc + w) target last in
    if ltb target (acc + w) then i else rest

-- The midpoint of the worker's slice, in units of the total weight.
unfoldable pub slot_target : ℕ → ℕ → ℕ → ℕ
slot_target idx sum workers = (2 * idx + 1) * sum % 2 ^ 64 / (2 * workers)

unfoldable pub slot_for : UpstreamSet → ℕ → Option ℕ
slot_for s idx =
    let n = min (length s.addrs) (length s.weights) in
    let sum = total (take n s.weights) in
    if n == 0
    then none
    else if sum == 0
    then some (idx % n)
    else some (slot_loop (take n s.weights) 0 0 (slot_target idx sum (max s.workers 1)) (n - 1))

unfoldable pub ip_eq : IpAddr → IpAddr → Bool
ip_eq (v4 a b c d) (v4 a' b' c' d') = (a == a') && (b == b') && (c == c') && (d == d')
ip_eq (v4 a b c d) (v6 octets) = false
ip_eq (v6 octets) (v4 a b c d) = false
ip_eq (v6 octets) (v6 octets') = bytes_eq octets octets'

-- `position`, from index `i` on.
unfoldable pub ip_position : List IpAddr → ℕ → IpAddr → Option ℕ
ip_position [] i addr = none
ip_position (a ∷ addrs) i addr =
    let rest = ip_position addrs (i + 1) addr in if ip_eq a addr then some i else rest

unfoldable pub weight_of : UpstreamSet → IpAddr → ℕ
weight_of s addr = elim (ip_position s.addrs 0 addr) [ none ↦ 0 | some i ↦ get_or s.weights i 0 ]
