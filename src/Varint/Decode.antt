-- ===== src/Varint/Decode.antt =====
-- h3.rs: `varint_decode` on any input. What it takes, and that bytes which arrive later change
-- nothing once it has answered.
use nix_config.Common.{
  ℕ, zero, suc, ◌-◌, ◌/◌, ◌^◌, ◌≤◌, ◌≡◌, arith, List, [], ◌∷◌, ◌++◌, some, length, length-append,
  take-append_le,
}
use native.Mathlib.Nat.{pow-suc}
use nix_config.Varint.{varint_decode}

one-le-two-pow : (n : ℕ) → 1 ≤ 2 ^ n
one-le-two-pow zero = omega arith
one-le-two-pow (suc n) = omega (arith, one-le-two-pow n, pow-suc 2 n)

-- A successful decode takes a byte at least, and no more than there are.
pub decode_takes :
    (buf : List ℕ) (v n : ℕ) → varint_decode buf ≡ some (v, n) → (1 ≤ n) × (n ≤ length buf)
unfolding varint_decode
decode_takes [] v n e = cc
decode_takes (first ∷ rest) v n e = ground (arith, one-le-two-pow (first / 2 ^ 6))

pub decode-append :
    (buf more : List ℕ) (v n : ℕ)
    → varint_decode buf ≡ some (v, n)
    → varint_decode (buf ++ more) ≡ some (v, n)
unfolding varint_decode
decode-append [] more v n e = cc
decode-append (first ∷ rest) more v n e = ground (
  arith,
  length-append rest more,
  one-le-two-pow (first / 2 ^ 6),
  take-append_le (2 ^ (first / 2 ^ 6) - 1) rest more,
)
