-- ===== src/Bootstrap/Async.antt =====
-- bootstrap.rs: `AsyncResolve`, the resolution that the supervisor drives.
use nix_config.Common.{
  ℕ, ◌+◌, ◌*◌, ◌/◌, ◌%◌, ◌^◌, List, [], ◌∷◌, ◌++◌, Bool, true, false, Option, none, some,
  if◌then◌else◌, leb, ◌==◌, min, max,
}
use Prim.Native.Nat.{bit_xor}
use nix_config.Shared.Address.{IpAddr}
use nix_config.Worker.Migration.{second}
use nix_config.Bootstrap.Answers.{Packet, parse_response, default_ttl}
use nix_config.Bootstrap.Query.{attempt_limit}

abbrev pub min_ttl : ℕ
min_ttl = 30

abbrev pub query_timeout : ℕ
query_timeout = 3 * second

-- On the nanoseconds of the system clock.
unfoldable pub rand_id : ℕ → ℕ
rand_id nanos = bit_xor (nanos % 2 ^ 16) (nanos / 2 ^ 16 % 2 ^ 16)

-- `sent` counts the calls of `send_both`; the queries are built once and not kept here.
pub record AsyncResolve : Type 0 where
  pub id_aaaa : ℕ
  pub id_a : ℕ
  pub deadline : ℕ
  pub attempts : ℕ
  pub aaaa : Option (List IpAddr × ℕ)
  pub a : Option (List IpAddr × ℕ)
  pub sent : ℕ

-- `ready` tells whether the queries are built and the socket is bound; the two clock values are those that
-- the IDs are made of.
unfoldable pub start_resolve : ℕ → ℕ → ℕ → Bool → Option AsyncResolve
start_resolve now nanos later_nanos ready =
    if ready
    then some (record {
      id_aaaa = rand_id nanos;
      id_a = (rand_id later_nanos + 1) % 2 ^ 16;
      deadline = now + query_timeout;
      attempts = 1;
      aaaa = none;
      a = none;
      sent = 1;
    })
    else none

module _ (parse : List ℕ → Option Packet) where
  unfoldable pub take_datagram : List ℕ → AsyncResolve → AsyncResolve
  take_datagram buf r = elim (parse_response parse buf r.id_aaaa) [
    | some answer ↦ record r { aaaa = some answer }
    | none ↦ elim (parse_response parse buf r.id_a) [
      | some answer ↦ record r { a = some answer }
      | none ↦ r
    ]
  ]

  unfoldable pub take_datagrams : List (List ℕ) → AsyncResolve → AsyncResolve
  take_datagrams [] r = r
  take_datagrams (buf ∷ rest) r = take_datagrams rest (take_datagram buf r)

-- The second pattern stands for the first where both are 0, as in the source.
unfoldable pub merge_ttl : ℕ → ℕ → ℕ
merge_ttl t6 t4 =
    if t6 == 0 then (if t4 == 0 then default_ttl else t4) else if t4 == 0 then t6 else min t6 t4

abbrev pub or_default : Option (List IpAddr × ℕ) → List IpAddr × ℕ
or_default none = ([], 0)
or_default (some answer) = answer

unfoldable pub finish_resolve : AsyncResolve → List IpAddr × ℕ
finish_resolve r =
    let (v6s, t6) = or_default r.aaaa in
    let (v4s, t4) = or_default r.a in (v6s ++ v4s, max (merge_ttl t6 t4) min_ttl)

abbrev pub both : Option (List IpAddr × ℕ) → Option (List IpAddr × ℕ) → Bool
both none other = false
both (some answer) none = false
both (some answer) (some other) = true

-- The new state, and the result where the resolution is complete.
unfoldable pub on_readable :
    (List ℕ → Option Packet)
    → List (List ℕ)
    → AsyncResolve
    → AsyncResolve × Option (List IpAddr × ℕ)
on_readable parse bufs r =
    let r' = take_datagrams parse bufs r in
    (r', if both r'.aaaa r'.a then some (finish_resolve r') else none)

-- The new state, and whether all attempts have timed out.
unfoldable pub on_timeout : ℕ → AsyncResolve → AsyncResolve × Bool
on_timeout now r = if leb attempt_limit r.attempts then (r, true) else (
  record r { attempts = r.attempts + 1; deadline = now + query_timeout; sent = r.sent + 1 },
  false,
)
