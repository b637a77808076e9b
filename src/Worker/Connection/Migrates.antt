-- ===== src/Worker/Connection/Migrates.antt =====
-- worker.rs: what a migration does to the queries that wait on the connection it closes.
use nix_config.Common.{
  Distinct, length-remove, ℕ, ◌+◌, ◌≡◌, refl, sym, subst, ◌∙◌, List, true, some, find_key,
  insert_key, find-insert, arith,
}
use nix_config.Worker.Dispatch.{Config, request_bytes}
use nix_config.Worker.Requests.{Pending, Requests, QuicReply, dispatch_query, await_response}
use nix_config.Worker.Requests.Held.{held_total}
use nix_config.Worker.Connection.{Worker, ConnectReply, reconnect}
use nix_config.Worker.Connection.Deadlines.Answered.{reconnect-SameHeld}

await_total :
    (cfg : Config) (k : ℕ) (p : Pending) (q : List ℕ) (peer now : ℕ) (s : Requests)
    → Distinct s.pending
    → find_key k s.pending ≡ some p
    → held_total (await_response cfg k q peer now s) ≡ held_total s
unfolding held_total insert_key
await_total cfg k p q peer now s d e = omega (arith, length-remove k s.pending p d e)

-- A reconnect, as a migration makes it, leaves the queries that wait on the connection it closes. A query
-- dispatched on a stream of the new connection that has the number of one of them is taken in, with its
-- request, its write and its end accepted: the queries held and the datagrams sent are as many as before
-- and nothing is sent, so that the query that waited on that stream is neither held nor answered.
pub dispatch-after_reconnect :
    (cfg : Config) (quic : QuicReply) (reply : ConnectReply) (k : ℕ) (p : Pending)
    (q bytes : List ℕ) (peer now : ℕ) (w : Worker)
    → Distinct w.requests.pending
    → find_key k w.requests.pending ≡ some p
    → quic.opened ≡ some k
    → quic.written ≡ true
    → quic.finished ≡ true
    → request_bytes cfg q ≡ some bytes
    → (s : Requests) × (dispatch_query cfg quic q peer now (reconnect now reply w).requests
        ≡ some s)
      × (held_total s ≡ held_total w.requests)
      × (s.sent ≡ w.requests.sent)
      × (find_key k s.pending
          ≡ some (record { query = q; peer = peer; deadline = now + cfg.timeout; started = now }))
unfolding dispatch_query
dispatch-after_reconnect cfg quic reply k p q bytes peer now w d e opened written finished made =
    let s = (reconnect now reply w).requests in
    let (pending, queue, sent) = reconnect-SameHeld now reply w in
    (
      await_response cfg k q peer now s,
      rw (dispatch_query, opened, made, written, finished) refl,
      await_total cfg k p q peer now s (subst Distinct (sym pending) d)
            (subst (λ m. find_key k m ≡ some p) (sym pending) e)
          ∙ same_total s w.requests pending queue sent,
      sent,
      rw
          (find-insert k k
            (record { query = q; peer = peer; deadline = now + cfg.timeout; started = now })
            s.pending)
          (ground arith),
    )
  where
    same_total :
        (s t : Requests)
        → s.pending ≡ t.pending
        → s.queue ≡ t.queue
        → s.sent ≡ t.sent
        → held_total s ≡ held_total t
    same_total s t p q r = unfold held_total in rw (p, q, r) refl
