-- ===== src/Qpack/Section/RoundTrip.antt =====
-- qpack.rs: a field section that `encode_field_section` wrote decodes to its fields.
use nix_config.Common.{
  ℕ, ◌^◌, ◌≤◌, ◌<◌, ◌≡◌, refl, sym, ap, ◌∙◌, List, [], ◌∷◌, ◌++◌, false, none, some, bit_and,
  length, map, ok, arith, All, length-append, append_assoc, append-nil, take-append_self,
  drop-append_self, bit_7, bit_3, bits_7_6, bits_7_6_5,
}
use nix_config.Qpack.PrefixInt.{prefix_int_bytes, write_prefix_int, read_prefix_int}
use nix_config.Qpack.PrefixInt.RoundTrip.{read-prefix_int_bytes, prefix_int_bytes-head}
use nix_config.Qpack.Section.{
  encode_fields, encode_field_section, NameRef, ValueRef, FieldLine, Decoder, new_decoder,
  split_bytes, read_value, next_literal, next_line, next,
}
use nix_config.Qpack.Section.Lines.{Yields, finished, line}

-- What the encoder writes for one field.
pub field_bytes : List ℕ × List ℕ → List ℕ
field_bytes (name, value) =
    prefix_int_bytes 3 0x20 (length name)
    ++ (name ++ (prefix_int_bytes 7 0x00 (length value) ++ value))

unfoldable pub section_bytes : List (List ℕ × List ℕ) → List ℕ
section_bytes [] = []
section_bytes (f ∷ fields) = field_bytes f ++ section_bytes fields

encode_fields-section_bytes :
    (fields : List (List ℕ × List ℕ)) (out : List ℕ)
    → encode_fields fields out ≡ out ++ section_bytes fields
unfolding encode_fields section_bytes field_bytes write_prefix_int
encode_fields-section_bytes [] out = sym (append-nil out)
encode_fields-section_bytes ((name, value) ∷ fields) out =
    encode_fields-section_bytes fields _ ∙ simp append_assoc

split-append : (xs rest : List ℕ) → split_bytes (length xs) (xs ++ rest) ≡ ok (xs, rest)
unfolding split_bytes
split-append xs rest =
    rw (take-append_self xs rest, drop-append_self xs rest) (ground (arith, length-append xs rest))

read_value-bytes :
    (value rest : List ℕ)
    → length value < 2 ^ 63
    → read_value (prefix_int_bytes 7 0 (length value) ++ (value ++ rest))
      ≡ ok (ValueRef.wire value false, rest)
unfolding read_value
read_value-bytes value rest h =
    let (b, t, e, lo, hi) =
      prefix_int_bytes-head 7 0 (length value) (omega arith) (omega arith) (omega arith) in
    let r =
      read-prefix_int_bytes 7 0 (length value) (value ++ rest) (omega arith) (omega arith)
        (omega arith) h in
    rw e (ground (arith, rw e at r, split-append value rest, bit_7 b (omega arith)))

next_literal-bytes :
    (name value rest : List ℕ) (b : ℕ)
    → length name < 2 ^ 63
    → length value < 2 ^ 63
    → bit_and b 0x08 ≡ 0
    → next_literal b (field_bytes (name, value) ++ rest)
      ≡ ok (
        record { name = NameRef.wire name; value = ValueRef.wire value false },
        record { buf = rest },
      )
unfolding next_literal field_bytes
next_literal-bytes name value rest b hn hv hb =
    let tail = name ++ (prefix_int_bytes 7 0x00 (length value) ++ (value ++ rest)) in
    simp (
      append_assoc,
      read-prefix_int_bytes 3 4 (length name) tail (omega arith) (omega arith) (omega arith) hn,
      split-append name,
      read_value-bytes value rest hv,
      hb,
    )

-- The first byte of a literal line tells it from the other kinds.
next_line-literal : (b : ℕ) (buf : List ℕ) → 32 ≤ b → b < 40 → next_line b buf ≡ next_literal b buf
unfolding next_line
next_line-literal b buf lo hi =
    ground (arith, bit_7 b (omega arith), bits_7_6 b (omega arith), bits_7_6_5 b (omega arith))

abbrev pub literal_line : List ℕ × List ℕ → FieldLine
literal_line (name, value) = record { name = NameRef.wire name; value = ValueRef.wire value false }

abbrev pub Fits : List ℕ × List ℕ → Type 0
Fits (name, value) = (length name < 2 ^ 63) × (length value < 2 ^ 63)

next-cons :
    (buf : List ℕ) (b : ℕ) (t : List ℕ)
    → buf ≡ b ∷ t
    → next (record { buf = buf }) ≡ some (next_line b buf)
unfolding next
next-cons buf b t e = rw e

pub next-field_bytes :
    (f : List ℕ × List ℕ) (rest : List ℕ)
    → Fits f
    → next (record { buf = field_bytes f ++ rest })
      ≡ some (ok (literal_line f, record { buf = rest }))
next-field_bytes (name, value) rest (hn, hv) =
    let (b, t, e, lo, hi) =
      prefix_int_bytes-head 3 4 (length name) (omega arith) (omega arith) (omega arith) in
    let literal =
      next_literal-bytes name value rest b hn hv (bit_3 b (omega arith) ∙ omega arith) in
    next-cons (field_bytes (name, value) ++ rest) b
      (t ++ (name ++ (prefix_int_bytes 7 0x00 (length value) ++ value)) ++ rest)
      (unfold field_bytes in rw e)
    ∙ ap some (next_line-literal b (field_bytes (name, value) ++ rest) lo hi ∙ literal)

pub next-empty : next (record { buf = [] }) ≡ none
unfolding next
next-empty = refl

Yields-section_bytes :
    (fields : List (List ℕ × List ℕ))
    → All Fits fields
    → Yields (record { buf = section_bytes fields }) (map literal_line fields)
unfolding section_bytes
Yields-section_bytes [] h = finished next-empty
Yields-section_bytes (f ∷ fields) (hf, h) =
    line (next-field_bytes f (section_bytes fields) hf) (Yields-section_bytes fields h)

-- The prefix of an empty dynamic table.
new_decoder-zeros : (buf : List ℕ) → new_decoder (0 ∷ 0 ∷ buf) ≡ ok (record { buf = buf })
unfolding new_decoder read_prefix_int
new_decoder-zeros buf = refl

pub new_decoder-section :
    (fields : List (List ℕ × List ℕ))
    → new_decoder (encode_field_section fields []) ≡ ok (record { buf = section_bytes fields })
unfolding encode_field_section
new_decoder-section fields =
    rw (encode_fields-section_bytes fields (0 ∷ 0 ∷ [])) (new_decoder-zeros (section_bytes fields))

pub length-field_bytes : (f : List ℕ × List ℕ) → 1 ≤ length (field_bytes f)
unfolding field_bytes
length-field_bytes (name, value) =
    let (b, t, e, lo, hi) =
      prefix_int_bytes-head 3 4 (length name) (omega arith) (omega arith) (omega arith) in
    rw e (omega arith)

-- A decoder made from what `encode_field_section` writes yields the fields, names and values as
-- literal bytes without Huffman coding, in order and without an error, and then ends; each name and
-- value is shorter than 2^63 bytes.
pub encode_field_section-Yields :
    (fields : List (List ℕ × List ℕ))
    → All Fits fields
    → (d : Decoder) × (new_decoder (encode_field_section fields []) ≡ ok d)
      × Yields d (map literal_line fields)
encode_field_section-Yields fields h = (
  record { buf = section_bytes fields },
  new_decoder-section fields,
  Yields-section_bytes fields h,
)
