-- ===== src/Common/Bits.antt =====
-- `bit_or` of a number below `2 ^ k` and a multiple of `2 ^ k` is their sum, at every width.
use Prim.Native.Nat.{
  ℕ, zero, suc, ◌+◌, ◌*◌, ◌/◌, ◌%◌, ◌^◌, ◌≤◌, ◌<◌, min, max, ◌-◌, bit_and, bit_or, digits,
  bit_or-bitwise, bit_and-bitwise,
}
use mathlib.Core.Path.{◌≡◌, refl, sym, ◌∙◌, ap}
use native.Mathlib.Omega.{arith}
use native.Mathlib.Nat.{
  pow-suc, mod-lt, mod-eq_of_lt, div-add-mod, add-mul-mod_self_right, div-div-eq-div-mul,
}

-- Binary digits: once the count of rounds reaches the number, more rounds change nothing.
module _ (last : ℕ → ℕ) (join : ℕ → ℕ → ℕ) where
  settled : (n a b : ℕ) → a ≤ n → digits last join (suc n) a b ≡ digits last join n a b
  settled n zero b h = settled_zero n b
    where
      settled_zero : (n b : ℕ) → digits last join (suc n) 0 b ≡ digits last join n 0 b
      settled_zero zero b = refl
      settled_zero (suc n) b = refl
  settled zero (suc a) b h = absurd (omega arith)
  settled (suc n) (suc a) b h = omega (arith, settled n (suc a / 2) (b / 2) (omega arith))

  settled_by : (k n a b : ℕ) → a ≤ n → digits last join (k + n) a b ≡ digits last join n a b
  settled_by zero n a b h =
      ap (λ (t : ℕ). digits last join t a b) {x = zero + n} {y = n} (omega arith)
  settled_by (suc k) n a b h =
      ap (λ (t : ℕ). digits last join t a b) {x = suc k + n} {y = suc (k + n)} (omega arith)
      ∙ settled (k + n) a b (omega arith)
      ∙ settled_by k n a b h

  -- One digit is split off.
  split_digit :
      (a b : ℕ)
      → digits last join (suc a) (suc a) b
        ≡ digits last join (suc a / 2) (suc a / 2) (b / 2) * 2 + join (suc a % 2) (b % 2)
  split_digit a b =
      let rounds : a ≡ a - suc a / 2 + suc a / 2 = omega arith in
      let fewer =
        ap (λ (n : ℕ). digits last join n (suc a / 2) (b / 2)) rounds
        ∙ settled_by (a - suc a / 2) (suc a / 2) (suc a / 2) (b / 2) (omega arith) in
      ap (λ (t : ℕ). t * 2 + join (suc a % 2) (b % 2)) fewer

zero-bit_or : (b : ℕ) → bit_or 0 b ≡ b
zero-bit_or b = bit_or-bitwise 0 b

or_halves : (a b : ℕ) → max (a % 2) (b % 2) + 2 * bit_or (a / 2) (b / 2) ≡ bit_or a b
or_halves zero b = omega (arith, zero-bit_or b, zero-bit_or (b / 2))
or_halves (suc a) b = omega (
  arith,
  split_digit (λ y. y) max a b,
  bit_or-bitwise (suc a / 2) (b / 2),
  bit_or-bitwise (suc a) b,
)

-- The halves and the last digits of a low part and of a multiple of `2 ^ suc k`.
halve_high : (k c : ℕ) → (c * 2 ^ suc k / 2 ≡ c * 2 ^ k) × (c * 2 ^ suc k % 2 ≡ 0)
halve_high k c = (omega (arith, double k c), omega (arith, double k c))
  where
    double : (k c : ℕ) → c * 2 ^ suc k ≡ 2 * (c * 2 ^ k)
    double k c = rw (pow-suc 2 k) (omega arith)

halve_low : (k b : ℕ) → b < 2 ^ suc k → b / 2 < 2 ^ k
halve_low k b h = omega (arith, pow-suc 2 k)

bit_or-zero : (k a : ℕ) → a < 2 ^ k → bit_or a 0 ≡ a
bit_or-zero zero zero h = zero-bit_or 0
bit_or-zero zero (suc a) h = absurd (omega arith)
bit_or-zero (suc k) a h = omega (arith, or_halves a 0, bit_or-zero k (a / 2) (halve_low k a h))

pub bit_or_low_high : (k b c : ℕ) → b < 2 ^ k → bit_or b (c * 2 ^ k) ≡ b + c * 2 ^ k
bit_or_low_high zero zero c h = zero-bit_or (c * 1) ∙ omega arith
bit_or_low_high zero (suc b) c h = absurd (omega arith)
bit_or_low_high (suc k) b c h = omega (
  arith,
  or_halves b (c * 2 ^ suc k),
  halve_high k c,
  ap (bit_or (b / 2)) (halve_high k c).0,
  bit_or_low_high k (b / 2) c (halve_low k b h),
)

lt-two-pow : (c : ℕ) → c < 2 ^ c
lt-two-pow zero = omega arith
lt-two-pow (suc c) = omega (arith, lt-two-pow c, pow-suc 2 c)

pub bit_or_high_low : (k b c : ℕ) → b < 2 ^ k → bit_or (c * 2 ^ k) b ≡ c * 2 ^ k + b
bit_or_high_low zero zero c h = bit_or-zero (c * 1) (c * 1) (lt-two-pow (c * 1)) ∙ omega arith
bit_or_high_low zero (suc b) c h = absurd (omega arith)
bit_or_high_low (suc k) b c h = omega (
  arith,
  or_halves (c * 2 ^ suc k) b,
  halve_high k c,
  ap (λ (t : ℕ). bit_or t (b / 2)) (halve_high k c).0,
  bit_or_high_low k (b / 2) c (halve_low k b h),
)

and_halves : (a b : ℕ) → min (a % 2) (b % 2) + 2 * bit_and (a / 2) (b / 2) ≡ bit_and a b
and_halves zero b = omega (arith, bit_and-bitwise 0 b, bit_and-bitwise 0 (b / 2))
and_halves (suc a) b = omega (
  arith,
  split_digit (λ y. zero) min a b,
  bit_and-bitwise (suc a / 2) (b / 2),
  bit_and-bitwise (suc a) b,
)

and-no_bits : (bound a : ℕ) → a < 2 ^ bound → bit_and a 0 ≡ 0
and-no_bits zero a h = ground (arith, and_halves a 0, bit_and-bitwise 0 0)
and-no_bits (suc bound) a h =
    omega (arith, and-no_bits bound (a / 2) (halve_low bound a h), and_halves a 0)

-- The lowest `k + 1` digits are the lowest `k` of the half, and the last.
mod-two-pow : (k a : ℕ) → a % 2 ^ suc k ≡ a / 2 % 2 ^ k * 2 + a % 2
mod-two-pow k a =
    let p : ℕ = 2 ^ k in
    let low : ℕ = a / 2 % p * 2 + a % 2 in
    let bound : a / 2 % p < p = mod-lt (a / 2) (two-pow-pos k) in
    let whole : a ≡ low + a / 2 / p * (2 * p) =
      omega (arith, ap (λ (t : ℕ). t * 2) (div-add-mod (a / 2) p), div-add-mod a 2) in
    let modulus : 2 ^ suc k ≡ 2 * p = omega (arith, pow-suc 2 k) in
    rw modulus (
      ap (λ (t : ℕ). t % (2 * p)) whole
      ∙ add-mul-mod_self_right low (a / 2 / p) (2 * p)
      ∙ mod-eq_of_lt (omega arith))
  where
    two-pow-pos : (k : ℕ) → 0 < 2 ^ k
    two-pow-pos zero = omega arith
    two-pow-pos (suc k) = omega (arith, two-pow-pos k, pow-suc 2 k)

half_mask : (k : ℕ) → ((2 ^ suc k - 1) / 2 ≡ 2 ^ k - 1) × ((2 ^ suc k - 1) % 2 ≡ 1)
half_mask k = (omega (arith, pow-suc 2 k, lt-two-pow k), omega (arith, pow-suc 2 k, lt-two-pow k))

pub bit_and_mask : (k a : ℕ) → bit_and a (2 ^ k - 1) ≡ a % 2 ^ k
bit_and_mask zero a = and-no_bits a a (lt-two-pow a) ∙ omega arith
bit_and_mask (suc k) a = omega (
  arith,
  and_halves a (2 ^ suc k - 1),
  half_mask k,
  ap (bit_and (a / 2)) (half_mask k).0,
  bit_and_mask k (a / 2),
  mod-two-pow k a,
)

-- One bit.
pub bit_and_bit : (k a : ℕ) → bit_and a (2 ^ k) ≡ a / 2 ^ k % 2 * 2 ^ k
bit_and_bit zero a = bit_and_mask 1 a ∙ omega arith
bit_and_bit (suc k) a =
    let even : 2 ^ suc k ≡ 2 * 2 ^ k = omega (arith, pow-suc 2 k) in
    let half : 2 ^ suc k / 2 ≡ 2 ^ k = omega arith in
    let quotient : a / 2 ^ suc k ≡ a / 2 / 2 ^ k =
      ap (λ (t : ℕ). a / t) even ∙ sym (div-div-eq-div-mul a 2 (2 ^ k)) in
    omega (
      arith,
      even,
      and_halves a (2 ^ suc k),
      ap (bit_and (a / 2)) half,
      bit_and_bit k (a / 2),
      ap (λ (t : ℕ). t % 2 * 2 ^ k) quotient,
      ap (λ (t : ℕ). a / 2 ^ suc k % 2 * t) even,
    )
