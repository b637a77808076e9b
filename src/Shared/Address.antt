-- ===== src/Shared/Address.antt =====
-- shared.rs: `RawAddr`, and the score of a measured round-trip time.
use nix_config.Common.{ℕ, ◌/◌, ◌≡◌, refl, List, ◌∷◌, if◌then◌else◌, ◌==◌, drop, get_or, replicate}

-- The four octets of an address of version 4, the sixteen bytes of one of version 6.
pub data IpAddr : Type 0 where
  v4 : ℕ → ℕ → ℕ → ℕ → IpAddr
  v6 : List ℕ → IpAddr

abbrev pub max_addrs : ℕ
max_addrs = 16

abbrev pub max_workers : ℕ
max_workers = 32

unfoldable pub score_from_rtt : ℕ → ℕ
score_from_rtt rtt_us = if rtt_us == 0 then 0 else 1_000_000 / rtt_us

pub record RawAddr : Type 0 where
  pub bytes : List ℕ
  pub is_v6 : ℕ

abbrev pub default_raw : RawAddr
default_raw = record { bytes = replicate 16 0; is_v6 = 0 }

unfoldable pub from_ip : IpAddr → RawAddr
from_ip (v4 a b c d) = record { bytes = a ∷ b ∷ c ∷ d ∷ drop 4 (replicate 16 0); is_v6 = 0 }
from_ip (v6 octets) = record { bytes = octets; is_v6 = 1 }

unfoldable pub to_ip : RawAddr → IpAddr
to_ip raw =
    if raw.is_v6 == 1
    then v6 raw.bytes
    else v4 (get_or raw.bytes 0 0) (get_or raw.bytes 1 0) (get_or raw.bytes 2 0)
        (get_or raw.bytes 3 0)

-- An address of either version comes back from its raw form.
pub to_ip-from_ip : (ip : IpAddr) → to_ip (from_ip ip) ≡ ip
unfolding to_ip from_ip
to_ip-from_ip (v4 a b c d) = refl
to_ip-from_ip (v6 octets) = refl
