-- ===== src/Worker/Requests/Balance.antt =====
-- worker.rs: the queries held and answered, counted over the dispatch of one query.
use nix_config.Common.{
  Distinct, remove-absent, some-injective, none≢some, ℕ, ◌+◌, ◌≤◌, ◌≡◌, subst, List, [], ◌∷◌, ◌++◌,
  Bool-cases, Option-cases, inl, inr, Option, none, some, not, ◌||◌, leb, length, length-append,
  All-append, find_key, insert_key, arith, ok,
}
use nix_config.Dns.Validate.{validate_query}
use nix_config.Dns.Servfail.{build_servfail}
use nix_config.Worker.Quality.{on_failure}
use nix_config.Worker.Dispatch.{Config, request_bytes}
use nix_config.Worker.Requests.{
  Pending, QueuedQuery, Requests, QuicReply, Link, send_servfail, fail_query, await_response,
  dispatch_query, accept,
}
use nix_config.Worker.Requests.Held.{LongQueued, Held, held_total, send_servfail-sends}

-- From one state to the next, `n` more queries are held or answered, and the queries held are as they
-- should be.
abbrev pub Balanced : ℕ → Requests → Requests → Type 0
Balanced n s s' = Held s' × (held_total s' ≡ held_total s + n)

-- The QUIC library opens a stream that no query is waiting on.
abbrev pub FreshIn : Option ℕ → List (ℕ × Pending) → Type 0
FreshIn none m = Unit
FreshIn (some stream) m = find_key stream m ≡ none

send-Balanced :
    (q : List ℕ) (peer : ℕ) (s : Requests)
    → 12 ≤ length q
    → Held s
    → Balanced 1 s (send_servfail q peer s)
unfolding held_total
send-Balanced q peer s long h =
    let reply : List ℕ × ℕ = ((build_servfail q []).1, peer) in
    rw (send_servfail-sends q peer s long) (
      record { distinct = h.distinct; pending_long = h.pending_long; queue_long = h.queue_long },
      omega (arith, length-append s.sent (reply ∷ [])),
    )

pub fail-Balanced :
    (q : List ℕ) (peer : ℕ) (s : Requests)
    → 12 ≤ length q
    → Held s
    → Balanced 1 s (fail_query q peer s)
fail-Balanced q peer s long h =
    let r =
      send-Balanced q peer (record s { quality = on_failure s.quality }) long
        (record {
          distinct = h.distinct;
          pending_long = h.pending_long;
          queue_long = h.queue_long;
        }) in
    (r.0, unfold held_total in r.1)

await-Balanced :
    (cfg : Config) (stream : ℕ) (q : List ℕ) (peer now : ℕ) (s : Requests)
    → 12 ≤ length q
    → Held s
    → find_key stream s.pending ≡ none
    → Balanced 1 s (await_response cfg stream q peer now s)
unfolding held_total insert_key Distinct
await-Balanced cfg stream q peer now s long h fresh = rw (remove-absent stream s.pending fresh) (
  record {
    distinct = (fresh, h.distinct);
    pending_long = (long, h.pending_long);
    queue_long = h.queue_long;
  },
  omega arith,
)

pub dispatch-Balanced :
    (cfg : Config) (quic : QuicReply) (q : List ℕ) (peer now : ℕ) (s s' : Requests)
    → 12 ≤ length q
    → Held s
    → FreshIn quic.opened s.pending
    → dispatch_query cfg quic q peer now s ≡ some s'
    → Balanced 1 s s'
unfolding dispatch_query
dispatch-Balanced cfg quic q peer now s s' long h fresh e = elim (Option-cases quic.opened) [
  | inl closed ↦
      subst (Balanced 1 s) (some-injective (rw (closed, dispatch_query) at e))
        (fail-Balanced q peer s long h)
  | inr (stream, opened) ↦ elim (Option-cases (request_bytes cfg q)) [
    | inl panics ↦ absurd (none≢some (rw (opened, dispatch_query, panics) at e))
    | inr (bytes, made) ↦ elim (Bool-cases quic.written) [
      | inr lost ↦
          subst (Balanced 1 s) (some-injective (rw (opened, dispatch_query, made, lost) at e))
            (send-Balanced q peer s long h)
      | inl written ↦ elim (Bool-cases quic.finished) [
        | inr unfinished ↦
            subst (Balanced 1 s)
              (some-injective (rw (opened, dispatch_query, made, written, unfinished) at e))
              (fail-Balanced q peer s long h)
        | inl sent ↦
            subst (Balanced 1 s)
              (some-injective (rw (opened, dispatch_query, made, written, sent) at e))
              (await-Balanced cfg stream q peer now s long h (rw opened at fresh))
      ]
    ]
  ]
]

pub valid_long : (q : List ℕ) (u : Unit {0}) → validate_query q ≡ ok u → 12 ≤ length q
unfolding validate_query
valid_long q u e = ground arith

queue-Balanced :
    (q : QueuedQuery) (s : Requests)
    → 12 ≤ length q.query
    → Held s
    → Balanced 1 s (record s { queue = s.queue ++ q ∷ [] })
unfolding held_total
queue-Balanced q s long h = (
  record {
    distinct = h.distinct;
    pending_long = h.pending_long;
    queue_long = All-append LongQueued s.queue (q ∷ []) h.queue_long (long, tt);
  },
  omega (arith, length-append s.queue (q ∷ [])),
)

pub accept-Balanced :
    (cfg : Config) (link : Link) (quic : QuicReply) (q : List ℕ) (peer now : ℕ) (s s' : Requests)
    → 12 ≤ length q
    → Held s
    → FreshIn quic.opened s.pending
    → accept cfg link quic q peer now s ≡ some s'
    → Balanced 1 s s'
unfolding accept
accept-Balanced cfg link quic q peer now s s' long h fresh e =
    elim (Bool-cases (link.goaway || not link.has_conn)) [
      | inl down ↦
          subst (Balanced 1 s) (some-injective (rw (accept, down) at e))
            (fail-Balanced q peer s long h)
      | inr up ↦ elim (Bool-cases link.h3_ready) [
        | inl ready ↦
            dispatch-Balanced cfg quic q peer now s s' long h fresh (rw (accept, up, ready) at e)
        | inr waits ↦ elim (Bool-cases (leb 64 (length s.queue))) [
          | inl full ↦
              subst (Balanced 1 s) (some-injective (rw (accept, up, waits, full) at e))
                (fail-Balanced q peer s long h)
          | inr room ↦ subst (Balanced 1 s) (some-injective (rw (accept, up, waits, room) at e)) (
              queue-Balanced (record { query = q; peer = peer; deadline = now + cfg.timeout }) s
                long h)
        ]
      ]
    ]
