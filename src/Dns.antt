-- ===== src/Dns.antt =====
-- pkgs/microdoh3/src/dns.rs: DNS messages on the byte level. A message is a list of numbers below 256,
-- `buf[i]` behind a length test is `get_or buf i 0`.
pub mod Validate
pub mod Question
pub mod Servfail
pub mod Padding
use nix_config.Common.{ℕ, ◌+◌, ◌*◌, ◌/◌, ◌%◌, List, [], ◌∷◌}

abbrev pub min_dns_len : ℕ
min_dns_len = 12

abbrev pub edns0_opt_pad : ℕ
edns0_opt_pad = 12

abbrev pub edns0_header_len : ℕ
edns0_header_len = 11

pub data DnsError : Type 0 where
  too_short no_question too_many_questions : ℕ → DnsError
  not_a_query malformed_question : DnsError

-- `u16::from_be_bytes`.
abbrev pub u16_of : ℕ → ℕ → ℕ
u16_of hi lo = hi * 256 + lo

-- `to_be_bytes` of a `u16`.
abbrev pub u16_bytes : ℕ → List ℕ
u16_bytes v = (v / 256 % 256) ∷ (v % 256) ∷ []
