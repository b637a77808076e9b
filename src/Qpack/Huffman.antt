-- ===== src/Qpack/Huffman.antt =====
-- qpack.rs: `huffman_decode`. The accumulator is a `u64`, the count of its bits a `u32`.
use nix_config.Common.{
  ℕ, zero, suc, ◌+◌, ◌-◌, ◌*◌, ◌/◌, ◌%◌, ◌^◌, List, [], ◌∷◌, ◌++◌, Option, none, some, ◌&&◌, not,
  if◌then◌else◌, ltb, leb, ◌==◌, bit_and, bit_or, Result, ok, err, ◌>>=◌,
}
use nix_config.Qpack.Error.{HuffmanError, bad_padding, eos_in_string, no_match}
use nix_config.Qpack.HuffmanTable.{huffman_table}

-- `HUFFMAN.iter().position(|&(c, l)| l as u32 == len && c as u64 == code)`, from index `i` on.
pub position : List (ℕ × ℕ) → ℕ → ℕ → ℕ → Option ℕ
position [] i len code = none
position ((c, l) ∷ table) i len code =
    if (l == len) && (c == code) then some i else position table (i + 1) len code

-- `while len <= 30 && len <= nbits`; `rounds` counts the lengths from `len` up to 30. The symbol
-- found and its length.
pub match_code : ℕ → ℕ → ℕ → ℕ → Option (ℕ × ℕ)
unfolding position huffman_table
match_code zero len acc nbits = none
match_code (suc rounds) len acc nbits =
    let longer = match_code rounds (len + 1) acc nbits in
    let code = bit_and (acc / 2 ^ (nbits - len)) (2 ^ len - 1) in
    if leb len nbits
    then elim (position huffman_table 0 len code) [ some sym ↦ some (sym, len) | none ↦ longer ]
    else none

pub record Bits : Type 0 where
  pub acc : ℕ
  pub nbits : ℕ
  pub out : List ℕ

-- The inner `loop`. Each match takes five bits at least, so as many rounds as there are bits are
-- enough, and with no bits the loop breaks.
pub take_symbols : ℕ → Bits → Result HuffmanError Bits
unfolding match_code
take_symbols zero s = ok s
take_symbols (suc rounds) s = if ltb s.nbits 5 then ok s else elim (match_code 26 5 s.acc s.nbits) [
  | none ↦ ok s
  | some (sym, len) ↦
      if sym == 256
      then err eos_in_string
      else take_symbols rounds (record {
        acc = bit_and s.acc (2 ^ (s.nbits - len) - 1);
        nbits = s.nbits - len;
        out = s.out ++ (sym % 2 ^ 8) ∷ [];
      })
]

-- One byte of `for &byte in data`.
pub take_byte : Bits → ℕ → Result HuffmanError Bits
unfolding take_symbols
take_byte s byte =
    let acc' = bit_or (s.acc * 2 ^ 8 % 2 ^ 64) byte in
    let nbits' = s.nbits + 8 in
    if ltb 56 nbits'
    then err no_match
    else take_symbols nbits' (record s { acc = acc'; nbits = nbits' })

pub take_bytes : List ℕ → Bits → Result HuffmanError Bits
unfolding take_byte
take_bytes [] s = ok s
take_bytes (byte ∷ data_rest) s = take_byte s byte >>= λ s'. take_bytes data_rest s'

-- The padding: at most seven bits, all ones.
check_padding : Bits → Result HuffmanError (List ℕ)
check_padding s =
    if leb 8 s.nbits
    then err no_match
    else if ltb 0 s.nbits && not (s.acc == 2 ^ s.nbits - 1)
    then err bad_padding
    else ok s.out

unfoldable pub huffman_decode : List ℕ → Result HuffmanError (List ℕ)
unfolding take_bytes check_padding
huffman_decode bytes = do
  s ← take_bytes bytes (record { acc = 0; nbits = 0; out = [] })
  check_padding s
