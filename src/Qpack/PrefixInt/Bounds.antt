-- ===== src/Qpack/PrefixInt/Bounds.antt =====
-- qpack.rs: `read_prefix_int` on any input.
use nix_config.Common.{
  ℕ, ◌+◌, ◌-◌, ◌*◌, ◌%◌, ◌^◌, ◌≤◌, ◌<◌, ◌≡◌, List, [], ◌∷◌, bit_and, length, ok, arith,
  prefix_range,
}
use nix_config.Qpack.PrefixInt.{read_loop, read_prefix_int}

-- After `j` continuation bytes the shift is `7 * j`, and the ninth byte is the last.
read_loop_takes :
    (src : List ℕ) (value shift j v : ℕ) (rest : List ℕ)
    → shift ≡ 7 * j
    → j ≤ 8
    → read_loop src value shift ≡ ok (v, rest)
    → (v < 2 ^ 64) × (length rest < length src) × (length src + j ≤ length rest + 9)
unfolding read_loop
read_loop_takes [] value shift j v rest hs hj e = cc
read_loop_takes (b ∷ bs) value shift j v rest hs hj e = ground (
  arith,
  read_loop_takes bs (value + bit_and b 0x7F * 2 ^ shift % 2 ^ 64) (shift + 7) (j + 1) v rest,
)

-- A successful read returns a 64-bit number, and takes 1 to 10 bytes.
pub read_prefix_int_takes :
    (src : List ℕ) (p v : ℕ) (rest : List ℕ)
    → 1 ≤ p
    → p ≤ 8
    → read_prefix_int src p ≡ ok (v, rest)
    → (v < 2 ^ 64) × (length rest < length src) × (length src ≤ length rest + 10)
unfolding read_prefix_int
read_prefix_int_takes [] p v rest lo hi e = cc
read_prefix_int_takes (first ∷ bs) p v rest lo hi e =
    ground (arith, read_loop_takes bs (bit_and first (2 ^ p - 1)) 0 0 v rest, prefix_range p lo hi)
