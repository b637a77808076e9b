-- ===== src/Dns/Padding.antt =====
-- dns.rs: `pad_query`. The result is the flag and `buf` afterwards; `none` is the panic of an index out
-- of bounds. `u16` sums wrap, as they do in the release profile.
pub mod Length
pub mod Records
use nix_config.Common.{
  ℕ, ◌+◌, ◌-◌, ◌*◌, ◌/◌, ◌%◌, ◌^◌, List, [], ◌∷◌, ◌++◌, Bool, true, false, Option, none, some, ◌&&◌,
  ◌||◌, if◌then◌else◌, ltb, leb, ◌==◌, length, set, get_or, replicate,
}
use nix_config.Dns.{u16_of, u16_bytes, edns0_opt_pad, edns0_header_len, min_dns_len}

-- The last eleven bytes are an OPT record without options.
unfoldable pub has_edns0 : List ℕ → Bool
has_edns0 buf =
    let n = length buf in
    leb (edns0_header_len + 4) n
    && (get_or buf (n - edns0_header_len) 0 == 0x00)
    && (u16_of (get_or buf (n - edns0_header_len + 1) 0) (get_or buf (n - edns0_header_len + 2) 0)
        == 41)

-- The padding option: code, length and zeros.
unfoldable pub padding_option : ℕ → List ℕ
padding_option pad_len =
    u16_bytes edns0_opt_pad ++ (u16_bytes (pad_len % 2 ^ 16) ++ replicate pad_len 0x00)

-- The option goes into the OPT record at the end of the message, whose RDLENGTH grows.
unfoldable pub extend_opt : List ℕ → ℕ → List ℕ
extend_opt buf pad_len =
    let rdlen_offset = length buf - 2 in
    let old_rdlen = u16_of (get_or buf rdlen_offset 0) (get_or buf (rdlen_offset + 1) 0) in
    let new_rdlen = (old_rdlen + 4 + pad_len % 2 ^ 16) % 2 ^ 16 in
    set (set buf rdlen_offset (new_rdlen / 2 ^ 8)) (rdlen_offset + 1) (new_rdlen % 2 ^ 8)
    ++ padding_option pad_len

-- A new OPT record, counted in ARCOUNT.
unfoldable pub append_opt : List ℕ → ℕ → List ℕ
append_opt buf pad_len =
    let new_arcount = (u16_of (get_or buf 10 0) (get_or buf 11 0) + 1) % 2 ^ 16 in
    set (set buf 10 (new_arcount / 2 ^ 8)) 11 (new_arcount % 2 ^ 8)
    ++ (0x00 ∷ []
        ++ (u16_bytes 41
            ++ (u16_bytes 4096
                ++ (0x00 ∷ 0x00 ∷ 0x00 ∷ 0x00 ∷ []
                    ++ (u16_bytes ((4 + pad_len % 2 ^ 16) % 2 ^ 16) ++ padding_option pad_len)))))

unfoldable pub pad_query : List ℕ → ℕ → Option (Bool × List ℕ)
pad_query buf block_size =
    let overhead = if has_edns0 buf then 4 else 11 + 4 in
    let current = length buf + overhead in
    let pad_len = block_size - current in
    if (block_size == 0) || leb block_size (length buf)
    then some (false, buf)
    else if leb block_size current
    then some (false, buf)
    else if has_edns0 buf
    then some (true, extend_opt buf pad_len)
    else if ltb (length buf) min_dns_len
    then none
    else some (true, append_opt buf pad_len)
