-- ===== src/Varint.antt =====
-- pkgs/microdoh3/src/h3.rs: QUIC variable-length integers. A `u64` is a number below `2 ^ 64`, a
-- byte slice a list of numbers below 256; `as u8`, `as u16` and `as u32` are `% 2 ^ w`.
pub mod RoundTrip
pub mod Decode
use nix_config.Common.{
  ℕ, zero, suc, ◌+◌, ◌-◌, ◌*◌, ◌/◌, ◌%◌, ◌^◌, ◌<◌, List, [], ◌∷◌, ◌++◌, Option, none, some,
  if◌then◌else◌, ltb, bit_and, bit_or, length, take,
}

-- `to_be_bytes` of an unsigned integer of `n` bytes.
abbrev pub to_be_bytes : ℕ → ℕ → List ℕ
to_be_bytes zero v = []
to_be_bytes (suc n) v = (v / 256 ^ n % 256) ∷ to_be_bytes n v

-- The bytes that `varint_encode` appends.
unfoldable pub varint_bytes : ℕ → List ℕ
varint_bytes v =
    if ltb v (2 ^ 6)
    then (v % 2 ^ 8) ∷ []
    else if ltb v (2 ^ 14)
    then to_be_bytes 2 (bit_or (v % 2 ^ 16) 0x4000)
    else if ltb v (2 ^ 30)
    then to_be_bytes 4 (bit_or (v % 2 ^ 32) 0x8000_0000)
    else to_be_bytes 8 (bit_or v 0xC000_0000_0000_0000)

unfoldable pub varint_encode : ℕ → List ℕ → List ℕ
varint_encode v out = out ++ varint_bytes v

-- `for &b in bytes { v = (v << 8) | b as u64; }`
unfoldable pub shift_in : ℕ → List ℕ → ℕ
shift_in v [] = v
shift_in v (b ∷ bytes) = shift_in (bit_or (v * 2 ^ 8 % 2 ^ 64) b) bytes

-- The value and the count of bytes that it took, or `none` where the input ends too soon.
unfoldable pub varint_decode : List ℕ → Option (ℕ × ℕ)
varint_decode [] = none
varint_decode (first ∷ rest) =
    let len = 2 ^ (first / 2 ^ 6) in
    if ltb (length (first ∷ rest)) len
    then none
    else some (shift_in (bit_and first 0x3F) (take (len - 1) rest), len)
