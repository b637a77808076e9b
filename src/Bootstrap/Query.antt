-- ===== src/Bootstrap/Query.antt =====
-- bootstrap.rs: one question with its retries, and the resolution of both families at the start. What the
-- sockets and the packet library answer is an argument.
use nix_config.Common.{
  ℕ, zero, suc, ◌+◌, ◌*◌, List, [], ◌∷◌, ◌++◌, Bool, true, false, not, Option, none, some, Result,
  ok, err, if◌then◌else◌, ◌==◌, ◌||◌, min,
}
use nix_config.Shared.Address.{IpAddr}
use nix_config.Worker.Migration.{second}
use nix_config.Worker.Quality.{u32_max}
use nix_config.Supervisor.Candidates.{of_family}
use nix_config.Bootstrap.Answers.{Packet, parse_response, default_ttl}

abbrev pub attempt_limit : ℕ
attempt_limit = 3

-- An `io::Error` is its code.
pub data QueryError : Type 0 where
  packet_error : QueryError
  io_error : ℕ → QueryError
  no_response : QueryError

-- One attempt: `send_to` fails, `recv_from` fails, or a datagram arrives.
pub data Attempt : Type 0 where
  send_failed : ℕ → Attempt
  recv_failed : ℕ → Attempt
  received : List ℕ → Attempt

abbrev pub last_error : Option ℕ → QueryError
last_error none = no_response
last_error (some e) = io_error e

-- What an attempt returns with, and the error that is kept after it.
abbrev pub answered_by : (List ℕ → Option Packet) → ℕ → Attempt → Option (List IpAddr × ℕ)
answered_by parse id (send_failed e) = none
answered_by parse id (recv_failed e) = none
answered_by parse id (received buf) = parse_response parse buf id

abbrev pub later_error : Attempt → Option ℕ → Option ℕ
later_error (send_failed e) last = some e
later_error (recv_failed e) last = some e
later_error (received buf) last = last

-- The loop, with the attempts that are left.
unfoldable pub attempt_loop :
    (List ℕ → Option Packet)
    → (ℕ → Attempt)
    → ℕ
    → ℕ
    → ℕ
    → Option ℕ
    → Result QueryError (List IpAddr × ℕ)
attempt_loop parse replies id zero i last = err (last_error last)
attempt_loop parse replies id (suc left) i last = elim (answered_by parse id (replies i)) [
  | some r ↦ ok r
  | none ↦ attempt_loop parse replies id left (i + 1) (later_error (replies i) last)
]

-- What one `query` meets: the ID, whether the packet can be built, the error of the socket's set-up.
pub record Exchange : Type 0 where
  pub id : ℕ
  pub built : Bool
  pub bind_error : Option ℕ
  pub replies : ℕ → Attempt

unfoldable pub query : (List ℕ → Option Packet) → Exchange → Result QueryError (List IpAddr × ℕ)
query parse x = if not x.built then err packet_error else elim x.bind_error [
  | some e ↦ err (io_error e)
  | none ↦ attempt_loop parse x.replies x.id attempt_limit 0 none
]

unfoldable pub add_family : Result QueryError (List IpAddr × ℕ) → List IpAddr × ℕ → List IpAddr × ℕ
add_family (ok (ips, ttl)) (addrs, min_ttl) = (addrs ++ ips, min min_ttl ttl)
add_family (err e) r = r

pub record ResolveState : Type 0 where
  pub addrs : List IpAddr
  pub expires_at : ℕ

unfoldable pub resolved : ℕ → List IpAddr × ℕ → Option ResolveState
resolved now ([], min_ttl) = none
resolved now (a ∷ addrs, min_ttl) =
    let ttl = if (min_ttl == u32_max) || (min_ttl == 0) then default_ttl else min_ttl in
    some (record { addrs = a ∷ addrs; expires_at = now + ttl * second })

-- `literal` is what the host parses to as an address, and `none` the error `NoRecords`.
unfoldable pub resolve :
    (List ℕ → Option Packet) → Option IpAddr → Exchange → Exchange → ℕ → Option ResolveState
resolve parse (some ip) aaaa a now =
    some (record { addrs = ip ∷ []; expires_at = now + 86400 * 365 * second })
resolve parse none aaaa a now =
    resolved now (add_family (query parse a) (add_family (query parse aaaa) ([], u32_max)))

-- `filter`, with the port.
unfoldable pub with_port : ℕ → List IpAddr → List (IpAddr × ℕ)
with_port port [] = []
with_port port (a ∷ addrs) = (a, port) ∷ with_port port addrs

unfoldable pub resolve_upstream :
    Option ResolveState → ℕ → Option (ResolveState × List (IpAddr × ℕ))
resolve_upstream none port = none
resolve_upstream (some state) port = some (
  state,
  with_port port (of_family true state.addrs) ++ with_port port (of_family false state.addrs),
)
