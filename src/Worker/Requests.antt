-- ===== src/Worker/Requests.antt =====
-- worker.rs: the queries that a worker holds, and the calls that take them in, send them on and answer
-- them. A peer is a number; what the QUIC library answers to one dispatch is an argument. The result
-- `none` is the panic of `request_bytes`.
use nix_config.Common.{
  ℕ, suc, ◌+◌, ◌-◌, ◌/◌, List, [], ◌∷◌, ◌++◌, Bool, true, false, not, ◌||◌, Option, none, some,
  if◌then◌else◌, ltb, leb, length, set, get_or, Result, ok, err, ◌&&◌, find_key, insert_key,
  remove_key, keys_where,
}
use nix_config.Dns.Validate.{validate_query}
use nix_config.Dns.Servfail.{build_servfail}
use nix_config.H3.Streams.{H3, H3Event, responded, failed, goaway_event, register_request}
use nix_config.Worker.Quality.{Quality, on_success, on_failure}
use nix_config.Worker.Dispatch.{Config, request_bytes}
pub mod Held
pub mod Balance
pub mod Answers
pub mod Calls
pub mod Queue

pub record Pending : Type 0 where
  pub query : List ℕ
  pub peer : ℕ
  pub deadline : ℕ
  pub started : ℕ

pub record QueuedQuery : Type 0 where
  pub query : List ℕ
  pub peer : ℕ
  pub deadline : ℕ

-- `sent` lists the datagrams sent to clients, with their peers.
pub record Requests : Type 0 where
  pub h3 : H3
  pub pending : List (ℕ × Pending)
  pub queue : List QueuedQuery
  pub quality : Quality
  pub sent : List (List ℕ × ℕ)

-- `open_bi`, `write_all` and `finish_stream`.
pub record QuicReply : Type 0 where
  pub opened : Option ℕ
  pub written : Bool
  pub finished : Bool

-- `goaway`, `quic.has_conn()` and `h3_ready`.
pub record Link : Type 0 where
  pub goaway : Bool
  pub has_conn : Bool
  pub h3_ready : Bool

abbrev pub max_queued : ℕ
max_queued = 64

unfoldable pub send_servfail : List ℕ → ℕ → Requests → Requests
send_servfail query peer s =
    let r = build_servfail query [] in
    if r.0 then record s { sent = s.sent ++ (r.1, peer) ∷ [] } else s

abbrev pub fail_query : List ℕ → ℕ → Requests → Requests
fail_query query peer s = send_servfail query peer (record s { quality = on_failure s.quality })

abbrev pub await_response : Config → ℕ → List ℕ → ℕ → ℕ → Requests → Requests
await_response cfg stream query peer now s = record s {
  h3 = register_request stream s.h3;
  pending =
      insert_key stream
        (record { query = query; peer = peer; deadline = now + cfg.timeout; started = now })
        s.pending;
}

unfoldable pub dispatch_query : Config → QuicReply → List ℕ → ℕ → ℕ → Requests → Option Requests
dispatch_query cfg quic query peer now s = elim quic.opened [
  | none ↦ some (fail_query query peer s)
  | some stream ↦ elim (request_bytes cfg query) [
    | none ↦ none
    | some bytes ↦
        if not quic.written
        then some (send_servfail query peer s)
        else if not quic.finished
        then some (fail_query query peer s)
        else some (await_response cfg stream query peer now s)
  ]
]

-- A valid query of `drain_dns`.
unfoldable pub accept : Config → Link → QuicReply → List ℕ → ℕ → ℕ → Requests → Option Requests
accept cfg link quic query peer now s =
    let queued = record s {
      queue = s.queue ++ (record { query = query; peer = peer; deadline = now + cfg.timeout }) ∷ [];
    } in
    if link.goaway || not link.has_conn
    then some (fail_query query peer s)
    else if not link.h3_ready
    then (if leb max_queued (length s.queue) then some (fail_query query peer s) else some queued)
    else dispatch_query cfg quic query peer now s

-- One datagram of `drain_dns`.
unfoldable pub receive : Config → Link → QuicReply → List ℕ → ℕ → ℕ → Requests → Option Requests
receive cfg link quic query peer now s = elim (validate_query query) [
  | err e ↦ some s
  | ok _ ↦ accept cfg link quic query peer now s
]

-- One round of the loop of `flush_queue`, with the queue as a list of its own.
unfoldable pub flush_front : Config → QuicReply → ℕ → List QueuedQuery → Requests → Option Requests
flush_front cfg quic now [] s = some s
flush_front cfg quic now (q ∷ queue) s =
    let rest = record s { queue = queue } in
    if leb q.deadline now
    then some (fail_query q.query q.peer rest)
    else dispatch_query cfg quic q.query q.peer now rest

unfoldable pub flush_one : Config → QuicReply → ℕ → Requests → Option Requests
flush_one cfg quic now s = flush_front cfg quic now s.queue s

-- The ID of the query is put back.
unfoldable pub echo_id : List ℕ → List ℕ → List ℕ
echo_id query body =
    if leb 2 (length body) && leb 2 (length query)
    then set (set body 0 (get_or query 0 0)) 1 (get_or query 1 0)
    else body

unfoldable pub answer : ℕ → ℕ → List ℕ → Option Pending → Requests → Requests
answer now stream body none s = s
answer now stream body (some p) s = record s {
  pending = remove_key stream s.pending;
  quality = on_success ((now - p.started) / 1000) s.quality;
  sent = s.sent ++ (echo_id p.query body, p.peer) ∷ [];
}

unfoldable pub give_up : ℕ → Option Pending → Requests → Requests
give_up stream none s = s
give_up stream (some p) s =
    fail_query p.query p.peer (record s { pending = remove_key stream s.pending })

-- One event of the H3 layer; GOAWAY concerns the connection alone.
unfoldable pub apply_event : ℕ → H3Event → Requests → Requests
apply_event now (responded stream body) s = answer now stream body (find_key stream s.pending) s
apply_event now (failed stream) s = give_up stream (find_key stream s.pending) s
apply_event now goaway_event s = s

-- The streams whose deadline has passed, in the order of the list; a `HashMap` gives them in any order.
unfoldable pub expired_keys : ℕ → List (ℕ × Pending) → List ℕ
expired_keys now m = keys_where (λ p. leb p.deadline now) m

unfoldable pub give_up_all : List ℕ → Requests → Requests
give_up_all [] s = s
give_up_all (k ∷ ks) s = give_up_all ks (give_up k (find_key k s.pending) s)

-- The first part of `housekeeping`.
unfoldable pub expire_pending : ℕ → Requests → Requests
expire_pending now s = give_up_all (expired_keys now s.pending) s

unfoldable pub expire_front : ℕ → List QueuedQuery → Requests → Requests
expire_front now [] s = record s { queue = [] }
expire_front now (q ∷ queue) s =
    let later = expire_front now queue (fail_query q.query q.peer s) in
    if leb q.deadline now then later else record s { queue = q ∷ queue }

-- Its third part: stale queries at the front of the queue.
unfoldable pub expire_queue : ℕ → Requests → Requests
expire_queue now s = expire_front now s.queue s

unfoldable pub fail_each : List (ℕ × Pending) → Requests → Requests
fail_each [] s = record s { pending = [] }
fail_each ((k, p) ∷ m) s = fail_each m (fail_query p.query p.peer s)

unfoldable pub fail_all_pending : Requests → Requests
fail_all_pending s = fail_each s.pending s
