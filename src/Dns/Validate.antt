-- ===== src/Dns/Validate.antt =====
-- dns.rs: `validate_query`.
use nix_config.Common.{
  ℕ, ◌+◌, ◌*◌, ◌/◌, ◌≤◌, ◌<◌, ◌≡◌, ◌↔◌, List, length, get_or, if◌then◌else◌, ltb, not, ◌==◌,
  bit_and, All, All-get_or, IsByte, bit_and_bit, ◌⊎◌, Result, ok, err, arith,
}
use nix_config.Dns.{
  DnsError, too_short, no_question, too_many_questions, not_a_query, min_dns_len, u16_of,
}

unfoldable pub validate_query : List ℕ → Result DnsError (Unit {0})
validate_query buf =
    let flags = u16_of (get_or buf 2 0) (get_or buf 3 0) in
    let qdcount = u16_of (get_or buf 4 0) (get_or buf 5 0) in
    if ltb (length buf) min_dns_len
    then err (too_short (length buf))
    else if not (bit_and flags 0x8000 == 0)
    then err not_a_query
    else if qdcount == 0
    then err (no_question qdcount)
    else if ltb 1 qdcount
    then err (too_many_questions qdcount)
    else ok tt

-- The QR bit is the top bit of byte 2.
qr_bit : (hi lo : ℕ) → IsByte hi → IsByte lo → bit_and (u16_of hi lo) 0x8000 ≡ hi / 128 * 32768
qr_bit hi lo h l = omega (arith, bit_and_bit 15 (u16_of hi lo))

-- On a message of bytes `validate_query` answers `ok` exactly where the header is complete, the QR bit is
-- clear and QDCOUNT is 1.
pub validate_query_iff :
    (buf : List ℕ)
    → All IsByte buf
    → (validate_query buf ≡ ok tt)
      ↔ ((12 ≤ length buf) × (get_or buf 2 0 < 128) × (get_or buf 4 0 ≡ 0) × (get_or buf 5 0 ≡ 1))
unfolding validate_query
validate_query_iff buf h =
    let byte = λ (i : ℕ). All-get_or IsByte buf i 0 (omega arith) h in
    let qr = qr_bit (get_or buf 2 0) (get_or buf 3 0) (byte 2) (byte 3) in
    (
      (λ e. ground (arith, qr, byte 2, byte 3, byte 4, byte 5)),
      (λ e. ground (arith, qr, byte 2, byte 3, byte 4, byte 5)),
    )

-- Which error a refused message gets: too short before all else, then a response, then the count of
-- questions as it stands in bytes 4 and 5.
pub validate_query_errors :
    (buf : List ℕ) (x : DnsError)
    → All IsByte buf
    → validate_query buf ≡ err x
    → let count = get_or buf 4 0 * 256 + get_or buf 5 0 in
      ((length buf < 12) × (x ≡ too_short (length buf)))
      ⊎ ((12 ≤ length buf)
          × (((128 ≤ get_or buf 2 0) × (x ≡ not_a_query))
              ⊎ ((get_or buf 2 0 < 128)
                  × (((count ≡ 0) × (x ≡ no_question 0))
                      ⊎ ((1 < count) × (x ≡ too_many_questions count))))))
unfolding validate_query
validate_query_errors buf x h e =
    let byte = λ (i : ℕ). All-get_or IsByte buf i 0 (omega arith) h in
    ground (arith, qr_bit (get_or buf 2 0) (get_or buf 3 0) (byte 2) (byte 3), byte 2, byte 3)
