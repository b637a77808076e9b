-- ===== src/Qpack/PrefixInt.antt =====
-- qpack.rs: prefix integers (RFC 7541, section 5.1). A value is a `u64`, a number below `2 ^ 64`.
pub mod RoundTrip
pub mod Bounds
use nix_config.Common.{
  ℕ, zero, suc, ◌+◌, ◌-◌, ◌*◌, ◌/◌, ◌%◌, ◌^◌, ◌≤◌, ◌<◌, List, [], ◌∷◌, ◌++◌, if◌then◌else◌, ltb,
  leb, ◌==◌, bit_and, bit_or, Acc, lt_wf, dite, dec_lt, Result, ok, err, arith,
}
use nix_config.Qpack.Error.{QpackError, truncated}

pub shift_shrinks : (v : ℕ) → 127 < v → v / 2 ^ 7 < v
shift_shrinks v h = omega arith

-- The bytes that `while v >= 128` and the push after it append.
unfoldable pub groups : (v : ℕ) → Acc ◌<◌ v → List ℕ
unfolding dec_lt
groups v (Acc.intro _ smaller) =
    dite (dec_lt 127 v)
      (λ more.
        (bit_or (bit_and (v % 2 ^ 8) 0x7F) 0x80)
        ∷ groups (v / 2 ^ 7) (smaller (v / 2 ^ 7) (shift_shrinks v more)))
      (λ _. (v % 2 ^ 8) ∷ [])

unfoldable pub prefix_int_bytes : ℕ → ℕ → ℕ → List ℕ
prefix_int_bytes prefix_bits first_byte value =
    let max_inline = 2 ^ prefix_bits - 1 in
    if ltb value max_inline
    then (bit_or first_byte (value % 2 ^ 8)) ∷ []
    else (bit_or first_byte (max_inline % 2 ^ 8))
      ∷ groups (value - max_inline) (lt_wf.apply (value - max_inline))

unfoldable pub write_prefix_int : List ℕ → ℕ → ℕ → ℕ → List ℕ
write_prefix_int out prefix_bits first_byte value =
    out ++ prefix_int_bytes prefix_bits first_byte value

-- The loop over the continuation bytes, with `checked_add`.
unfoldable pub read_loop : List ℕ → ℕ → ℕ → Result QpackError (ℕ × List ℕ)
read_loop [] value shift = err truncated
read_loop (b ∷ rest) value shift =
    let value' = value + bit_and b 0x7F * 2 ^ shift % 2 ^ 64 in
    let more = read_loop rest value' (shift + 7) in
    if leb (2 ^ 64) value'
    then err truncated
    else if bit_and b 0x80 == 0
    then ok (value', rest)
    else if ltb 56 (shift + 7)
    then err truncated
    else more

-- The value, and the bytes after it.
unfoldable pub read_prefix_int : List ℕ → ℕ → Result QpackError (ℕ × List ℕ)
read_prefix_int [] prefix_bits = err truncated
read_prefix_int (first ∷ rest) prefix_bits =
    let max_inline = 2 ^ prefix_bits - 1 in
    let value = bit_and first max_inline in
    if ltb value max_inline then ok (value, rest) else read_loop rest value 0
