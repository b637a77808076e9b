-- ===== src/Base64url.antt =====
-- pkgs/microdoh3/src/base64url.rs: base64url without padding, encode only. A slice of bytes is a list
-- of numbers below 256.
use nix_config.Common.{
  ℕ, ◌+◌, ◌-◌, ◌*◌, ◌/◌, ◌%◌, ◌^◌, List, [], ◌∷◌, ◌++◌, Option, none, some, if◌then◌else◌, ltb,
  ◌==◌, bit_and, bit_or, length, drop, get_or, codes,
}
pub mod Decode

unfoldable pub alphabet : List ℕ
alphabet = codes "ABCDEFGHIJKLMNOPQRSTUVWXYZabcdefghijklmnopqrstuvwxyz0123456789-_"

unfoldable pub encoded_len : ℕ → ℕ
encoded_len n = n / 3 * 4 + (if n % 3 == 0 then 0 else if n % 3 == 1 then 2 else 3)

-- `ALPHABET[(n >> shift) as usize & 63]`.
unfoldable pub symbol : ℕ → ℕ → ℕ
symbol n shift = get_or alphabet (bit_and (n / 2 ^ shift) 63) 0

-- The bytes that are written, chunk by chunk and then for the remainder.
unfoldable pub symbols : List ℕ → List ℕ
symbols (a ∷ b ∷ c ∷ rest) =
    let n = bit_or (bit_or (a * 2 ^ 16) (b * 2 ^ 8)) c in
    symbol n 18 ∷ symbol n 12 ∷ symbol n 6 ∷ symbol n 0 ∷ symbols rest
symbols (a ∷ b ∷ []) =
    let n = bit_or (a * 2 ^ 16) (b * 2 ^ 8) in symbol n 18 ∷ symbol n 12 ∷ symbol n 6 ∷ []
symbols (a ∷ []) = let n = a * 2 ^ 16 in symbol n 18 ∷ symbol n 12 ∷ []
symbols [] = []

-- `out` afterwards and the count of bytes written; `none` is the panic of a write past the end.
unfoldable pub encode_into : List ℕ → List ℕ → Option (List ℕ × ℕ)
encode_into input out =
    let o = length (symbols input) in
    if ltb (length out) o then none else some (symbols input ++ drop o out, o)
