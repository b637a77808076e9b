-- ===== src/Common/Masks.antt =====
-- Bit masks on one byte as arithmetic. Each fact is a table of at most 256 rows, checked by
-- evaluation.
use Prim.Native.Nat.{ℕ, zero, suc, ◌+◌, ◌-◌, ◌*◌, ◌/◌, ◌%◌, ◌^◌, ◌≤◌, ◌<◌, bit_and, bit_or}
use mathlib.Core.Path.{◌≡◌, refl}
use mathlib.Core.Bool.{Bool, true, ◌&&◌}
use native.Mathlib.Omega.{arith}
use nix_config.Common.Tests.{◌==◌, ==_iff}

abbrev pub IsByte : ℕ → Type 0
IsByte b = b < 256

unfoldable pub all_below : ℕ → (ℕ → Bool) → Bool
all_below zero test = true
all_below (suc top) test = test top && all_below top test

pub all_below_sound :
    (bound : ℕ) (test : ℕ → Bool) (i : ℕ) → all_below bound test ≡ true → i < bound → test i ≡ true
unfolding all_below
all_below_sound (suc top) test i passed below = ground (arith, all_below_sound top test i)
all_below_sound zero test i passed below = absurd (omega arith)

-- Two functions that agree on each value below `n`, by evaluation.
module _ (f g : ℕ → ℕ) (n : ℕ) (table : all_below n (λ x. f x == g x) ≡ true) where
  agree : (x : ℕ) → x < n → f x ≡ g x
  agree x h = (==_iff (f x) (g x)).0 (all_below_sound n (λ x. f x == g x) x table h)

pub low_3 : (b : ℕ) → IsByte b → bit_and b 7 ≡ b % 8
unfolding all_below
low_3 = agree (λ b. bit_and b 7) (λ b. b % 8) 256 refl

pub low_4 : (b : ℕ) → IsByte b → bit_and b 15 ≡ b % 16
unfolding all_below
low_4 = agree (λ b. bit_and b 15) (λ b. b % 16) 256 refl

pub low_6 : (b : ℕ) → IsByte b → bit_and b 63 ≡ b % 64
unfolding all_below
low_6 = agree (λ b. bit_and b 63) (λ b. b % 64) 256 refl

pub low_7 : (b : ℕ) → IsByte b → bit_and b 127 ≡ b % 128
unfolding all_below
low_7 = agree (λ b. bit_and b 127) (λ b. b % 128) 256 refl

pub low_8 : (b : ℕ) → IsByte b → bit_and b 255 ≡ b
unfolding all_below
low_8 = agree (λ b. bit_and b 255) (λ b. b) 256 refl

pub bit_7 : (b : ℕ) → IsByte b → bit_and b 0x80 ≡ b / 128 * 128
unfolding all_below
bit_7 = agree (λ b. bit_and b 0x80) (λ b. b / 128 * 128) 256 refl

pub bits_7_6 : (b : ℕ) → IsByte b → bit_and b 0xc0 ≡ b / 64 * 64
unfolding all_below
bits_7_6 = agree (λ b. bit_and b 0xc0) (λ b. b / 64 * 64) 256 refl

pub bits_7_6_5 : (b : ℕ) → IsByte b → bit_and b 0xe0 ≡ b / 32 * 32
unfolding all_below
bits_7_6_5 = agree (λ b. bit_and b 0xe0) (λ b. b / 32 * 32) 256 refl

pub bit_6 : (b : ℕ) → IsByte b → bit_and b 0x40 ≡ b / 64 % 2 * 64
unfolding all_below
bit_6 = agree (λ b. bit_and b 0x40) (λ b. b / 64 % 2 * 64) 256 refl

pub bit_4 : (b : ℕ) → IsByte b → bit_and b 0x10 ≡ b / 16 % 2 * 16
unfolding all_below
bit_4 = agree (λ b. bit_and b 0x10) (λ b. b / 16 % 2 * 16) 256 refl

pub bit_3 : (b : ℕ) → IsByte b → bit_and b 8 ≡ b / 8 % 2 * 8
unfolding all_below
bit_3 = agree (λ b. bit_and b 8) (λ b. b / 8 % 2 * 8) 256 refl

pub set_bit_7 : (b : ℕ) → b < 128 → bit_or b 0x80 ≡ b + 128
unfolding all_below
set_bit_7 = agree (λ b. bit_or b 0x80) (λ b. b + 128) 128 refl

pub or_0x20 : (b : ℕ) → b < 32 → bit_or 0x20 b ≡ b + 32
unfolding all_below
or_0x20 = agree (λ b. bit_or 0x20 b) (λ b. b + 32) 32 refl

pub or_zero : (b : ℕ) → IsByte b → bit_or 0 b ≡ b
unfolding all_below
or_zero = agree (λ b. bit_or 0 b) (λ b. b) 256 refl

-- The mask of `p` ones, for the prefixes that fit a byte.
pub low_bits : (p b : ℕ) → p ≤ 8 → IsByte b → bit_and b (2 ^ p - 1) ≡ b % 2 ^ p
unfolding all_below
low_bits zero b hp hb = agree (λ b. bit_and b 0) (λ b. b % 1) 256 refl b hb
low_bits (suc zero) b hp hb = agree (λ b. bit_and b 1) (λ b. b % 2) 256 refl b hb
low_bits (suc (suc zero)) b hp hb = agree (λ b. bit_and b 3) (λ b. b % 4) 256 refl b hb
low_bits (suc (suc (suc zero))) b hp hb = low_3 b hb
low_bits (suc (suc (suc (suc zero)))) b hp hb = low_4 b hb
low_bits (suc (suc (suc (suc (suc zero))))) b hp hb =
    agree (λ b. bit_and b 31) (λ b. b % 32) 256 refl b hb
low_bits (suc (suc (suc (suc (suc (suc zero)))))) b hp hb = low_6 b hb
low_bits (suc (suc (suc (suc (suc (suc (suc zero))))))) b hp hb = low_7 b hb
low_bits (suc (suc (suc (suc (suc (suc (suc (suc zero)))))))) b hp hb =
    agree (λ b. bit_and b 255) (λ b. b % 256) 256 refl b hb
low_bits (suc (suc (suc (suc (suc (suc (suc (suc (suc p))))))))) b hp hb = absurd (omega arith)

-- A prefix of `p` bits holds numbers that fit a byte.
pub prefix_range : (p : ℕ) → 1 ≤ p → p ≤ 8 → (2 ≤ 2 ^ p) × (2 ^ p ≤ 256)
prefix_range zero lo hi = absurd (omega arith)
prefix_range (suc zero) lo hi = omega arith
prefix_range (suc (suc zero)) lo hi = omega arith
prefix_range (suc (suc (suc zero))) lo hi = omega arith
prefix_range (suc (suc (suc (suc zero)))) lo hi = omega arith
prefix_range (suc (suc (suc (suc (suc zero))))) lo hi = omega arith
prefix_range (suc (suc (suc (suc (suc (suc zero)))))) lo hi = omega arith
prefix_range (suc (suc (suc (suc (suc (suc (suc zero))))))) lo hi = omega arith
prefix_range (suc (suc (suc (suc (suc (suc (suc (suc zero)))))))) lo hi = omega arith
prefix_range (suc (suc (suc (suc (suc (suc (suc (suc (suc p))))))))) lo hi = absurd (omega arith)
