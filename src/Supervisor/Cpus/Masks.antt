-- ===== src/Supervisor/Cpus/Masks.antt =====
-- main.rs: the bits that `parse_cpumask` finds in a mask.
use nix_config.Common.{
  ℕ, zero, suc, ◌+◌, ◌*◌, ◌/◌, ◌%◌, ◌^◌, ◌≤◌, ◌<◌, ◌≡◌, refl, ap, ◌∙◌, List, [], ◌∷◌, ◌++◌, Bool,
  true, false, ◌&&◌, ◌||◌, Bool-cases, Option, none, some, inl, inr, if◌then◌else◌, leb, ◌==◌,
  length, sort_by, insert_sorted, trim, split_on, hex_digit, parse_radix, arith,
}
use nix_config.Url.{contains}
use nix_config.Supervisor.Cpus.{
  u32_limit, bit_cpus, bits_cpus, group_cpus, mask_cpus, parse_cpumask,
}

pub contains-append :
    (c : ℕ) (xs ys : List ℕ) → contains c (xs ++ ys) ≡ (contains c xs || contains c ys)
unfolding contains
contains-append c [] ys = refl
contains-append c (x ∷ xs) ys = ground (arith, contains-append c xs ys)

contains-insert_sorted :
    (c x : ℕ) (ys : List ℕ) → contains c (insert_sorted leb x ys) ≡ ((x == c) || contains c ys)
unfolding contains insert_sorted
contains-insert_sorted c x [] = refl
contains-insert_sorted c x (y ∷ ys) = ground (arith, contains-insert_sorted c x ys)

pub contains-sort_by : (c : ℕ) (xs : List ℕ) → contains c (sort_by leb xs) ≡ contains c xs
unfolding contains sort_by
contains-sort_by c [] = refl
contains-sort_by c (x ∷ xs) =
    contains-insert_sorted c x (sort_by leb xs) ∙ ap (λ b. (x == c) || b) (contains-sort_by c xs)

-- Bit `32 q + r` of a mask: bit `r` of group `q`, the last part being group 0.
abbrev pub set_at : ℕ → ℕ → Bool
set_at bits b = bits / 2 ^ b % 2 == 1

abbrev pub bit_of : Option ℕ → ℕ → Bool
bit_of none r = false
bit_of (some bits) r = set_at bits r

unfoldable pub part_bit : ℕ → ℕ → List (List ℕ) → Bool
part_bit q r [] = false
part_bit q r (part ∷ parts) =
    let lower = part_bit q r parts in
    if q == length parts then bit_of (parse_radix 16 hex_digit u32_limit (trim part)) r else lower

abbrev pub mask_bit : ℕ → List ℕ → Bool
mask_bit c mask = part_bit (c / 32) (c % 32) (split_on 44 (trim mask))

contains-put :
    (x y : ℕ) (t : Bool) (rest : List ℕ)
    → contains x (if t then y ∷ rest else rest) ≡ ((t && (y == x)) || contains x rest)
unfolding contains
contains-put x y true rest = refl
contains-put x y false rest = refl

-- From bit `bit` on: bit `bit`, and what comes from the next on.
from_next :
    (q r group bit : ℕ) (s t : Bool)
    → r < 32
    → bit < 32
    → (bit ≡ r → s ≡ t)
    → ((s && (group * 32 + bit == q * 32 + r)) || ((q == group) && leb (bit + 1) r && t))
      ≡ ((q == group) && leb bit r && t)
from_next q r group bit s t below small same = elim (Bool-cases (bit == r)) [
  | inl here ↦ let st = same (ground arith) in rw st (ground arith)
  | inr other ↦ ground arith
]

contains-bit_cpus :
    (q r group bits left bit : ℕ)
    → r < 32
    → bit + left ≡ 32
    → group * 32 + 32 ≤ 2 ^ 32
    → contains (q * 32 + r) (bit_cpus group bits left bit)
      ≡ ((q == group) && leb bit r && set_at bits r)
contains-bit_cpus q r group bits zero bit below e h = unfold contains bit_cpus in ground arith
contains-bit_cpus q r group bits (suc left) bit below e h =
    let rest = contains-bit_cpus q r group bits left (bit + 1) below (omega arith) h in
    let same : (group * 32 + bit) % 2 ^ 32 ≡ group * 32 + bit = omega arith in
    contains-first
    ∙ ap (λ b. (set_at bits bit && ((group * 32 + bit) % 2 ^ 32 == q * 32 + r)) || b) rest
    ∙ ap
        (λ (y : ℕ).
          (set_at bits bit && (y == q * 32 + r))
          || ((q == group) && leb (bit + 1) r && set_at bits r))
        same
    ∙ from_next q r group bit (set_at bits bit) (set_at bits r) below (omega arith)
        (λ b. ap (set_at bits) b)
  where
    contains-first : contains (q * 32 + r) (bit_cpus group bits (suc left) bit) ≡ (
        (set_at bits bit && ((group * 32 + bit) % 2 ^ 32 == q * 32 + r))
        || contains (q * 32 + r) (bit_cpus group bits left (bit + 1)))
    contains-first =
        unfold bit_cpus in
        contains-put (q * 32 + r) ((group * 32 + bit) % 2 ^ 32) (set_at bits bit) _

contains-bits_cpus :
    (q r group : ℕ) (bits : Option ℕ)
    → r < 32
    → group * 32 + 32 ≤ 2 ^ 32
    → contains (q * 32 + r) (bits_cpus group bits) ≡ ((q == group) && bit_of bits r)
contains-bits_cpus q r group none below h = unfold contains in ground arith
contains-bits_cpus q r group (some bits) below h =
    contains-bit_cpus q r group bits 32 0 below refl h ∙ from_zero (set_at bits r)
  where
    from_zero : (t : Bool) → ((q == group) && leb 0 r && t) ≡ ((q == group) && t)
    from_zero t = ground arith

contains-group_cpus :
    (q r group : ℕ) (part : List ℕ)
    → r < 32
    → group * 32 + 32 ≤ 2 ^ 32
    → contains (q * 32 + r) (group_cpus group part)
      ≡ ((q == group) && bit_of (parse_radix 16 hex_digit u32_limit (trim part)) r)
unfolding group_cpus
contains-group_cpus q r group part below h =
    contains-bits_cpus q r group (parse_radix 16 hex_digit u32_limit (trim part)) below h

part_bit_above : (q r : ℕ) (parts : List (List ℕ)) → length parts ≤ q → part_bit q r parts ≡ false
unfolding part_bit
part_bit_above q r [] h = refl
part_bit_above q r (part ∷ parts) h = ground (arith, part_bit_above q r parts)

either_part :
    (q n : ℕ) (s t : Bool)
    → (n ≤ q → s ≡ false)
    → (s || ((q == n) && t)) ≡ (if q == n then t else s)
either_part q n s t h = elim (Bool-cases (q == n)) [
  | inl same ↦ let off = h (ground arith) in rw (off, same) refl
  | inr other ↦ rw other (ground arith)
]

contains-mask_cpus :
    (q r : ℕ) (parts : List (List ℕ))
    → r < 32
    → length parts ≤ 2 ^ 27
    → contains (q * 32 + r) (mask_cpus parts) ≡ part_bit q r parts
unfolding mask_cpus part_bit
contains-mask_cpus q r [] below h = unfold contains in refl
contains-mask_cpus q r (part ∷ parts) below h =
    contains-append (q * 32 + r) (mask_cpus parts) (group_cpus (length parts) part)
    ∙ ap (λ b. b || contains (q * 32 + r) (group_cpus (length parts) part))
        (contains-mask_cpus q r parts below (omega arith))
    ∙ ap (λ b. part_bit q r parts || b)
        (contains-group_cpus q r (length parts) part below (omega arith))
    ∙ either_part q (length parts) (part_bit q r parts) _ (part_bit_above q r parts)

-- A mask of at most 2 ^ 27 groups: its CPUs are its bits.
pub contains-parse_cpumask :
    (c : ℕ) (mask : List ℕ)
    → length (split_on 44 (trim mask)) ≤ 2 ^ 27
    → contains c (parse_cpumask mask) ≡ mask_bit c mask
unfolding parse_cpumask
contains-parse_cpumask c mask h =
    let parts = split_on 44 (trim mask) in
    let split : c ≡ c / 32 * 32 + c % 32 = omega arith in
    contains-sort_by c (mask_cpus parts)
    ∙ ap (λ (d : ℕ). contains d (mask_cpus parts)) split
    ∙ contains-mask_cpus (c / 32) (c % 32) parts (omega arith) h
