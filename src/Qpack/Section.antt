-- ===== src/Qpack/Section.antt =====
-- qpack.rs: field sections. The encoder, and the decoder with its iterator. `Decoder` keeps the bytes
-- that are not read yet; the caller of `next` stops at the first error, so an error carries no decoder.
use nix_config.Common.{
  ℕ, ◌+◌, ◌≤◌, ◌<◌, List, [], ◌∷◌, ◌++◌, Bool, true, false, Option, none, some, not, if◌then◌else◌,
  ltb, ◌==◌, bit_and, length, take, drop, get_elem?, Result, ok, err, ◌>>=◌, or_err, map_err,
}
use nix_config.Qpack.Error.{QpackError, truncated, dynamic_table, bad_index, huffman}
use nix_config.Qpack.PrefixInt.{write_prefix_int, read_prefix_int}
use nix_config.Qpack.Huffman.{huffman_decode}
use nix_config.Qpack.StaticTable.{static_table}
pub mod Lines
pub mod RoundTrip

-- `for (name, value) in fields`, each with a literal name.
unfoldable pub encode_fields : List (List ℕ × List ℕ) → List ℕ → List ℕ
encode_fields [] out = out
encode_fields ((name, value) ∷ fields) out = encode_fields fields (
    write_prefix_int (write_prefix_int out 3 0x20 (length name) ++ name) 7 0x00 (length value)
    ++ value)

unfoldable pub encode_field_section : List (List ℕ × List ℕ) → List ℕ → List ℕ
encode_field_section fields out = encode_fields fields (out ++ 0x00 ∷ 0x00 ∷ [])

pub data NameRef : Type 0 where
  static : List ℕ → NameRef
  wire : List ℕ → NameRef

abbrev pub as_bytes : NameRef → List ℕ
as_bytes (NameRef.static s) = s
as_bytes (NameRef.wire v) = v

-- The flag of a wire value says that it is Huffman-coded.
pub data ValueRef : Type 0 where
  static : List ℕ → ValueRef
  wire : List ℕ → Bool → ValueRef

-- `ValueRef::decode`.
unfoldable pub decode_value : ValueRef → Result QpackError (List ℕ)
decode_value (ValueRef.static s) = ok s
decode_value (ValueRef.wire b false) = ok b
decode_value (ValueRef.wire b true) = map_err huffman (huffman_decode b)

pub record FieldLine : Type 0 where
  pub name : NameRef
  pub value : ValueRef

pub record Decoder : Type 0 where
  pub buf : List ℕ

-- `Decoder::new`.
unfoldable pub new_decoder : List ℕ → Result QpackError Decoder
new_decoder buf = do
  (required_insert_count, rest) ← read_prefix_int buf 8
  (_delta_base, rest') ← read_prefix_int rest 7
  if required_insert_count == 0 then ok (record { buf = rest' }) else err dynamic_table

-- `&self.buf[self.pos..end]` with its two bounds checks, and the bytes behind it.
unfoldable pub split_bytes : ℕ → List ℕ → Result QpackError (List ℕ × List ℕ)
split_bytes len buf =
    if ltb (length buf) len then err truncated else ok (take len buf, drop len buf)

-- The value string of a literal line: the H bit, the length and the bytes.
unfoldable pub read_value : List ℕ → Result QpackError (ValueRef × List ℕ)
read_value [] = err truncated
read_value (first ∷ rest) = do
  (len, rest') ← read_prefix_int (first ∷ rest) 7
  (raw, rest'') ← split_bytes len rest'
  ok (ValueRef.wire raw (not (bit_and first 0x80 == 0)), rest'')

-- Indexed Field Line: 1 T Index(6+).
unfoldable pub next_indexed : ℕ → List ℕ → Result QpackError (FieldLine × Decoder)
next_indexed b buf = if bit_and b 0x40 == 0 then err dynamic_table else (do
  (idx, rest) ← read_prefix_int buf 6
  (name, value) ← or_err (get_elem? static_table idx) (bad_index idx)
  ok (record { name = NameRef.static name; value = ValueRef.static value }, record { buf = rest }))

-- Literal Field Line With Name Reference: 01 N T Index(4+).
unfoldable pub next_name_ref : ℕ → List ℕ → Result QpackError (FieldLine × Decoder)
next_name_ref b buf = if bit_and b 0x10 == 0 then err dynamic_table else (do
  (idx, rest) ← read_prefix_int buf 4
  (name, _) ← or_err (get_elem? static_table idx) (bad_index idx)
  (value, rest') ← read_value rest
  ok (record { name = NameRef.static name; value = value }, record { buf = rest' }))

-- Literal Field Line With Literal Name: 001 N H NameLen(3+).
unfoldable pub next_literal : ℕ → List ℕ → Result QpackError (FieldLine × Decoder)
next_literal b buf = do
  (name_len, rest) ← read_prefix_int buf 3
  (raw_name, rest') ← split_bytes name_len rest
  name ← (if bit_and b 0x08 == 0 then ok raw_name else map_err huffman (huffman_decode raw_name))
  (value, rest'') ← read_value rest'
  ok (record { name = NameRef.wire name; value = value }, record { buf = rest'' })

unfoldable pub next_line : ℕ → List ℕ → Result QpackError (FieldLine × Decoder)
next_line b buf =
    if not (bit_and b 0x80 == 0)
    then next_indexed b buf
    else if bit_and b 0xC0 == 0x40
    then next_name_ref b buf
    else if bit_and b 0xE0 == 0x20
    then next_literal b buf
    else err dynamic_table

-- `Iterator::next`.
unfoldable pub next : Decoder → Option (Result QpackError (FieldLine × Decoder))
next d = elim d.buf [ [] ↦ none | b ∷ rest ↦ some (next_line b (b ∷ rest)) ]
