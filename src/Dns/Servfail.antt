-- ===== src/Dns/Servfail.antt =====
-- dns.rs: `build_servfail`. The result is the flag and `out` afterwards.
pub mod Header
use nix_config.Common.{
  ℕ, List, Bool, true, false, Option, none, some, if◌then◌else◌, ltb, leb, bit_and, bit_or, length,
  take, set, get_or, Result, ok, err,
}
use nix_config.Dns.{DnsError, min_dns_len}
use nix_config.Dns.Question.{question_end}

-- How many bytes of the query are kept, or `none` where not even a header is there.
unfoldable pub kept_len : List ℕ → Result DnsError ℕ → Option ℕ
kept_len query (ok e) =
    if leb e (length query)
    then some e
    else if ltb (length query) min_dns_len
    then none
    else some min_dns_len
kept_len query (err x) = if ltb (length query) min_dns_len then none else some min_dns_len

-- `out[6..12].fill(0)`.
unfoldable pub zero_counts : List ℕ → List ℕ
zero_counts out = set (set (set (set (set (set out 6 0) 7 0) 8 0) 9 0) 10 0) 11 0

unfoldable pub mark_servfail : List ℕ → List ℕ
mark_servfail out =
    let out1 = set out 2 (bit_or (get_or out 2 0) 0x80) in
    let out2 = set out1 3 (bit_or (bit_or (bit_and (get_or out1 3 0) 0x70) 0x80) 0x02) in
    zero_counts out2

unfoldable pub build_servfail : List ℕ → List ℕ → Bool × List ℕ
build_servfail query out = elim (kept_len query (question_end query)) [
  | none ↦ (false, out)
  | some end ↦ (true, mark_servfail (take end query))
]
