-- ===== src/Quic.antt =====
-- pkgs/microdoh3/src/quic.rs: how the data of one stream is read, and how the address of a datagram is
-- told. What the QUIC library answers is an argument.
use nix_config.Common.{
  ℕ, List, [], ◌∷◌, ◌++◌, Option, none, some, Bool, true, false, if◌then◌else◌, get_or, take,
  bytes_eq, replicate,
}
use nix_config.Shared.Address.{IpAddr, v4, v6}

-- How a run of chunks ends: `Ok(None)`, `Blocked`, another error.
pub data Ending : Type 0 where
  finished : Ending
  blocked : Ending
  broken : Ending

-- What the library answers to `read` and then to each `next`.
pub data ReadReply : Type 0 where
  closed_stream : ReadReply
  unreadable : ReadReply
  chunks : List (List ℕ) → Ending → ReadReply

abbrev pub read_flags : Ending → Bool × Bool
read_flags finished = (true, false)
read_flags blocked = (false, false)
read_flags broken = (false, true)

unfoldable pub each_chunk {ℓ} : {S : Type ℓ} → (List ℕ → S → S) → List (List ℕ) → S → S
each_chunk f [] s = s
each_chunk f (c ∷ cs) s = each_chunk f cs (f c s)

-- The state that `f` changes, then the end of the stream and the error.
unfoldable pub read_stream {ℓ} :
    {S : Type ℓ} → Bool → ReadReply → (List ℕ → S → S) → S → S × Bool × Bool
read_stream false reply f s = (s, false, true)
read_stream true closed_stream f s = (s, true, false)
read_stream true unreadable f s = (s, false, true)
read_stream true (chunks cs ending) f s =
    (each_chunk f cs s, (read_flags ending).0, (read_flags ending).1)

-- `to_ipv4_mapped`, on the sixteen octets of an address.
abbrev pub mapped_prefix : List ℕ
mapped_prefix = replicate 10 0 ++ 255 ∷ 255 ∷ []

unfoldable pub to_ipv4_mapped : List ℕ → Option IpAddr
to_ipv4_mapped octets =
    if bytes_eq (take 12 octets) mapped_prefix
    then some
        (v4 (get_or octets 12 0) (get_or octets 13 0) (get_or octets 14 0) (get_or octets 15 0))
    else none

unfoldable pub unmap_ip : IpAddr → IpAddr
unmap_ip (v4 a b c d) = v4 a b c d
unmap_ip (v6 octets) = elim (to_ipv4_mapped octets) [ none ↦ v6 octets | some ip ↦ ip ]

-- A socket address is an address with a port.
unfoldable pub unmap_addr : IpAddr × ℕ → IpAddr × ℕ
unmap_addr (v4 a b c d, port) = (v4 a b c d, port)
unmap_addr (v6 octets, port) = elim (to_ipv4_mapped octets) [
  | none ↦ (v6 octets, port)
  | some ip ↦ (ip, port)
]
