-- ===== src/H3/Status/Fields.antt =====
-- h3.rs: `parse_status` on field sections of literal lines.
use nix_config.Common.{
  ℕ, zero, suc, ◌≤◌, ◌≡◌, refl, List, [], ◌∷◌, ok, if◌then◌else◌, length, length-append, arith, All,
  codes, bytes_eq,
}
use nix_config.Qpack.Section.{decode_value, encode_field_section}
use nix_config.Qpack.Section.RoundTrip.{
  Fits, field_bytes, section_bytes, next-field_bytes, next-empty, new_decoder-section,
  length-field_bytes,
}
use nix_config.H3.Status.{parse_or_zero, status_loop, parse_status}

abbrev status_name : List ℕ
status_name = codes ":status"

-- The value of the first `:status` field, or 0 where there is none.
unfoldable pub first_status : List (List ℕ × List ℕ) → ℕ
first_status [] = 0
first_status ((name, value) ∷ fields) =
    let rest = first_status fields in
    if bytes_eq name status_name then parse_or_zero value else rest

status_loop-section :
    (rounds : ℕ) (fields : List (List ℕ × List ℕ))
    → length (section_bytes fields) ≤ rounds
    → All Fits fields
    → status_loop rounds (record { buf = section_bytes fields }) ≡ ok (first_status fields)
unfolding status_loop first_status section_bytes decode_value
status_loop-section zero [] h fits = refl
status_loop-section (suc rounds) [] h fits = rw (next-empty, status_loop)
status_loop-section zero (f ∷ fields) h fits =
    absurd
      (omega (arith, length-field_bytes f, length-append (field_bytes f) (section_bytes fields)))
status_loop-section (suc rounds) ((name, value) ∷ fields) h (one, fits) =
    let f : List ℕ × List ℕ = (name, value) in
    let rest =
      status_loop-section rounds fields
        (omega (arith, length-field_bytes f, length-append (field_bytes f) (section_bytes fields)))
        fits in
    rw (next-field_bytes f (section_bytes fields) one, status_loop) (ground (arith, rest))

-- `parse_status` on an encoded field section gives the value of its first `:status` field as a `u16`,
-- 0 where that is no such number, and 0 where the section has no `:status` field.
pub parse_status-encode_field_section :
    (fields : List (List ℕ × List ℕ))
    → All Fits fields
    → parse_status (encode_field_section fields []) ≡ ok (first_status fields)
unfolding parse_status
parse_status-encode_field_section fields fits =
    rw (new_decoder-section fields)
      (status_loop-section (length (section_bytes fields)) fields (omega arith) fits)
