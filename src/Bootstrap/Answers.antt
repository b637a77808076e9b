-- ===== src/Bootstrap/Answers.antt =====
-- bootstrap.rs: `parse_response`. An instant is a count of nanoseconds, a TTL one of seconds.
use nix_config.Common.{
  ℕ, zero, suc, ◌/◌, ◌%◌, ◌^◌, ◌≡◌, List, [], ◌∷◌, ◌++◌, Option, none, some, if◌then◌else◌, ◌==◌,
  min,
}
use nix_config.Shared.Address.{IpAddr, v4, v6}
use nix_config.Worker.Quality.{u32_max}

abbrev pub default_ttl : ℕ
default_ttl = 300

-- What the code reads of a resource record, of a packet.
pub data RecordData : Type 0 where
  a_record : ℕ → RecordData
  aaaa_record : ℕ → RecordData
  other_record : RecordData

pub record Answer : Type 0 where
  pub rdata : RecordData
  pub ttl : ℕ

pub record Packet : Type 0 where
  pub packet_id : ℕ
  pub answers : List Answer

-- The low `k` bytes of a number, the most significant one first.
unfoldable pub be_octets : ℕ → ℕ → List ℕ → List ℕ
be_octets zero n rest = rest
be_octets (suc k) n rest = be_octets k (n / 256) (n % 256 ∷ rest)

unfoldable pub answer_ip : RecordData → Option IpAddr
answer_ip (a_record address) =
    some
      (v4 (address / 2 ^ 24 % 256) (address / 2 ^ 16 % 256) (address / 2 ^ 8 % 256) (address % 256))
answer_ip (aaaa_record address) = some (v6 (be_octets 16 address []))
answer_ip other_record = none

unfoldable pub take_answer : Option IpAddr → ℕ → List IpAddr × ℕ → List IpAddr × ℕ
take_answer none ttl (ips, min_ttl) = (ips, min_ttl)
take_answer (some ip) ttl (ips, min_ttl) = (ips ++ ip ∷ [], min min_ttl ttl)

unfoldable pub take_answers : List Answer → List IpAddr × ℕ → List IpAddr × ℕ
take_answers [] r = r
take_answers (rr ∷ rest) r = take_answers rest (take_answer (answer_ip rr.rdata) rr.ttl r)

unfoldable pub read_packet : ℕ → Packet → Option (List IpAddr × ℕ)
read_packet want_id packet =
    let r = take_answers packet.answers ([], u32_max) in
    if packet.packet_id == want_id
    then some (r.0, if r.1 == u32_max then default_ttl else r.1)
    else none

unfoldable pub parse_response : (List ℕ → Option Packet) → List ℕ → ℕ → Option (List IpAddr × ℕ)
parse_response parse buf want_id = elim (parse buf) [
  | none ↦ none
  | some packet ↦ read_packet want_id packet
]

abbrev pub push_ip : Option IpAddr → List IpAddr → List IpAddr
push_ip none ips = ips
push_ip (some ip) ips = ip ∷ ips

abbrev pub push_ttl : Option IpAddr → ℕ → List ℕ → List ℕ
push_ttl none ttl later = later
push_ttl (some ip) ttl later = ttl ∷ later

-- The addresses and the TTLs of the records that have an address, in their order.
unfoldable pub addresses : List Answer → List IpAddr
addresses [] = []
addresses (rr ∷ rest) = push_ip (answer_ip rr.rdata) (addresses rest)

unfoldable pub ttls : List Answer → List ℕ
ttls [] = []
ttls (rr ∷ rest) = push_ttl (answer_ip rr.rdata) rr.ttl (ttls rest)

unfoldable pub lowest : ℕ → List ℕ → ℕ
lowest bound [] = bound
lowest bound (t ∷ ts) = min t (lowest bound ts)

-- The walk from any start: the addresses are appended, and the TTLs taken into the minimum.
abbrev TakenAll : List Answer → List IpAddr × ℕ → Type 0
TakenAll rrs r =
    ((take_answers rrs r).0 ≡ r.0 ++ addresses rrs)
    × ((take_answers rrs r).1 ≡ lowest r.1 (ttls rrs))
