-- ===== src/Shared/Upstream/Equal.antt =====
-- shared.rs: the comparison of addresses, and the position of one that is listed.
use nix_config.Common.{
  ℕ, zero, suc, ◌+◌, ◌<◌, ◌≡◌, refl, ap, sym, subst, ◌∙◌, List, [], ◌∷◌, Bool, true, false,
  Bool-cases, inl, inr, Option, none, some, some-injective, none≢some, ◌==◌, get_elem?, take, All,
  bytes_eq_refl, bytes_eq→eq, arith,
}
use nix_config.Shared.Address.{IpAddr, v4, v6}
use nix_config.Shared.Upstream.{ip_eq, ip_position}

pub ip_eq_refl : (ip : IpAddr) → ip_eq ip ip ≡ true
unfolding ip_eq
ip_eq_refl (v4 a b c d) = ground arith
ip_eq_refl (v6 octets) = bytes_eq_refl octets

pub ip_eq→eq : (a b : IpAddr) → ip_eq a b ≡ true → a ≡ b
unfolding ip_eq
ip_eq→eq (v4 a b c d) (v4 a' b' c' d') e = ground arith
ip_eq→eq (v4 a b c d) (v6 octets) e = cc
ip_eq→eq (v6 octets) (v4 a b c d) e = cc
ip_eq→eq (v6 octets) (v6 octets') e = ap v6 (bytes_eq→eq octets octets' e)

abbrev pub found_at : ℕ → Option ℕ → Bool
found_at i none = false
found_at i (some j) = i == j

position_above :
    (addrs : List IpAddr) (i k : ℕ) (addr : IpAddr)
    → i < k
    → found_at i (ip_position addrs k addr) ≡ false
unfolding ip_position
position_above [] i k addr h = refl
position_above (a ∷ addrs) i k addr h = elim (Bool-cases (ip_eq a addr)) [
  | inl here ↦ rw here (ground arith)
  | inr other ↦ rw other (position_above addrs i (k + 1) addr (omega arith))
]

other_first : (a c addr : IpAddr) → ip_eq a c ≡ false → ip_eq a addr ≡ true → ip_eq c addr ≡ false
other_first a c addr ne e = elim (Bool-cases (ip_eq c addr)) [
  | inr other ↦ other
  | inl same ↦
      let ac : a ≡ c = ip_eq→eq a addr e ∙ sym (ip_eq→eq c addr same) in
      let twice : ip_eq a c ≡ true = subst (λ x. ip_eq a x ≡ true) ac (ip_eq_refl a) in
      absurd (clash (sym ne ∙ twice))
]
  where
    clash : false ≡ true → ⊥
    clash h = cc

-- An address listed at an index, and not before it, is the one that is found there.
pub position_listed :
    (addrs : List IpAddr) (i k : ℕ) (c addr : IpAddr)
    → get_elem? addrs i ≡ some c
    → All (λ a. ip_eq a c ≡ false) (take i addrs)
    → found_at (k + i) (ip_position addrs k addr) ≡ ip_eq c addr
unfolding ip_position
position_listed [] i k c addr e h = absurd (none≢some e)
position_listed (a ∷ addrs) zero k c addr e h = elim (Bool-cases (ip_eq a addr)) [
  | inl here ↦
      let same : ip_eq c addr ≡ true = subst (λ x. ip_eq x addr ≡ true) (some-injective e) here in
      rw (here, same) (ground arith)
  | inr other ↦
      let same : ip_eq c addr ≡ false =
        subst (λ x. ip_eq x addr ≡ false) (some-injective e) other in
      rw (other, same) (position_above addrs (k + 0) (k + 1) addr (omega arith))
]
position_listed (a ∷ addrs) (suc i) k c addr e (ne, h) = elim (Bool-cases (ip_eq a addr)) [
  | inl here ↦ rw (here, other_first a c addr ne here) (ground arith)
  | inr other ↦ rw other (
      ap (λ (n : ℕ). found_at n (ip_position addrs (k + 1) addr)) {x = k + suc i} {y = k + 1 + i}
        (omega arith)
      ∙ position_listed addrs i (k + 1) c addr e h)
]
