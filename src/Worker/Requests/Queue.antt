-- ===== src/Worker/Requests/Queue.antt =====
-- worker.rs: the queue and the order of its deadlines.
use nix_config.Common.{
  remove-absent, ℕ, ◌+◌, ◌≤◌, ◌<◌, ◌≡◌, ◌⊎◌, inl, inr, refl, sym, ◌∙◌, ap, subst, List, [], ◌∷◌,
  ◌++◌, Bool, true, false, Bool-cases, Option-cases, if-cases, Option, none, some, some-injective,
  none≢some, not, ◌||◌, leb, ◌==◌, length, Result-cases, ok, err, All, All-append, find_key,
  remove_key, if◌then◌else◌, arith,
}
use nix_config.Dns.Servfail.{build_servfail}
use nix_config.Dns.Validate.{validate_query}
use nix_config.H3.Streams.{H3Event, responded, failed, goaway_event}
use nix_config.Worker.Quality.{on_failure}
use nix_config.Worker.Dispatch.{Config, request_bytes}
use nix_config.Worker.Requests.{
  Pending, QueuedQuery, Requests, QuicReply, Link, send_servfail, fail_query, await_response,
  dispatch_query, accept, receive, flush_front, answer, give_up, apply_event, expired_keys,
  give_up_all, expire_pending, expire_front, expire_queue, fail_each, fail_all_pending,
}
pub mod Deadlines

send_servfail_held :
    (q : List ℕ) (peer : ℕ) (s : Requests)
    → ((send_servfail q peer s).pending ≡ s.pending) × ((send_servfail q peer s).queue ≡ s.queue)
unfolding send_servfail
send_servfail_held q peer s = elim (Bool-cases (build_servfail q []).0) [
  | inl sends ↦ rw (send_servfail, sends) (refl, refl)
  | inr short ↦ rw (send_servfail, short) (refl, refl)
]

-- A query that fails leaves the others that are held.
pub fail_query_held :
    (q : List ℕ) (peer : ℕ) (s : Requests)
    → ((fail_query q peer s).pending ≡ s.pending) × ((fail_query q peer s).queue ≡ s.queue)
fail_query_held q peer s = send_servfail_held q peer (record s { quality = on_failure s.quality })

pub dispatch_query_queue :
    (cfg : Config) (quic : QuicReply) (q : List ℕ) (peer now : ℕ) (s s' : Requests)
    → dispatch_query cfg quic q peer now s ≡ some s'
    → s'.queue ≡ s.queue
unfolding dispatch_query
dispatch_query_queue cfg quic q peer now s s' e = elim (Option-cases quic.opened) [
  | inl closed ↦
      ap queue (sym (some-injective (rw (closed, dispatch_query) at e)))
      ∙ (fail_query_held q peer s).1
  | inr (stream, opened) ↦ elim (Option-cases (request_bytes cfg q)) [
    | inl panics ↦ absurd (none≢some (rw (opened, dispatch_query, panics) at e))
    | inr (bytes, made) ↦ sent stream (rw (opened, dispatch_query, made) at e)
  ]
]
  where
    queue : Requests → List QueuedQuery
    queue t = t.queue

    sent :
        (stream : ℕ)
        → (if not quic.written
            then some (send_servfail q peer s)
            else if not quic.finished
            then some (fail_query q peer s)
            else some (await_response cfg stream q peer now s))
          ≡ some s'
        → s'.queue ≡ s.queue
    sent stream e = elim (Bool-cases quic.written) [
      | inr lost ↦ ap queue (sym (some-injective (rw lost at e))) ∙ (send_servfail_held q peer s).1
      | inl written ↦ elim (Bool-cases quic.finished) [
        | inr unfinished ↦
            ap queue (sym (some-injective (rw (written, unfinished) at e)))
            ∙ (fail_query_held q peer s).1
        | inl finished ↦ ap queue (sym (some-injective (rw (written, finished) at e)))
      ]
    ]

-- In the order of the deadlines, none more than the timeout away.
unfoldable pub Ascending : List QueuedQuery → Type 0
Ascending [] = Unit
Ascending (q ∷ queue) = All (λ r. q.deadline ≤ r.deadline) queue × Ascending queue

abbrev pub Within : ℕ → QueuedQuery → Type 0
Within t q = q.deadline ≤ t

unfoldable pub Queued : ℕ → List QueuedQuery → Type 0
Queued t queue = Ascending queue × All (Within t) queue

pub Ascending-push :
    (queue : List QueuedQuery) (q : QueuedQuery)
    → Ascending queue
    → All (Within q.deadline) queue
    → Ascending (queue ++ q ∷ [])
unfolding Ascending
Ascending-push [] q a w = (tt, tt)
Ascending-push (r ∷ queue) q (first, a) (le, w) = (
  All-append (λ p. r.deadline ≤ p.deadline) queue (q ∷ []) first (le, tt),
  Ascending-push queue q a w,
)

All-Within :
    (t u : ℕ) (queue : List QueuedQuery) → t ≤ u → All (Within t) queue → All (Within u) queue
All-Within t u [] le w = tt
All-Within t u (q ∷ queue) le (first, w) = (omega arith, All-Within t u queue le w)

pub Queued-later : (t u : ℕ) (queue : List QueuedQuery) → t ≤ u → Queued t queue → Queued u queue
unfolding Queued
Queued-later t u queue le (a, w) = (a, All-Within t u queue le w)

pub Queued-tail :
    (t : ℕ) (q : QueuedQuery) (queue : List QueuedQuery) → Queued t (q ∷ queue) → Queued t queue
unfolding Queued Ascending
Queued-tail t q queue ((first, a), (le, w)) = (a, w)

Queued-push :
    (t : ℕ) (queue : List QueuedQuery) (q : QueuedQuery)
    → q.deadline ≡ t
    → Queued t queue
    → Queued t (queue ++ q ∷ [])
unfolding Queued
Queued-push t queue q e (a, w) = (
  Ascending-push queue q a (subst (λ u. All (Within u) queue) (sym e) w),
  All-append (Within t) queue (q ∷ []) w (omega (arith, e), tt),
)

accept-Queued :
    (cfg : Config) (link : Link) (quic : QuicReply) (q : List ℕ) (peer now : ℕ) (s s' : Requests)
    → Queued (now + cfg.timeout) s.queue
    → accept cfg link quic q peer now s ≡ some s'
    → Queued (now + cfg.timeout) s'.queue
unfolding accept
accept-Queued cfg link quic q peer now s s' h e =
    elim (Bool-cases (link.goaway || not link.has_conn)) [
      | inl down ↦ gave_up (some-injective (rw (accept, down) at e))
      | inr up ↦ elim (Bool-cases link.h3_ready) [
        | inl ready ↦
            subst (Queued (now + cfg.timeout))
              (sym (dispatch_query_queue cfg quic q peer now s s' (rw (accept, up, ready) at e))) h
        | inr waits ↦ elim (Bool-cases (leb 64 (length s.queue))) [
          | inl full ↦ gave_up (some-injective (rw (accept, up, waits, full) at e))
          | inr room ↦
              subst (λ t. Queued (now + cfg.timeout) t.queue)
                (some-injective (rw (accept, up, waits, room) at e))
                (Queued-push (now + cfg.timeout) s.queue
                  (record { query = q; peer = peer; deadline = now + cfg.timeout }) refl h)
        ]
      ]
    ]
  where
    gave_up : fail_query q peer s ≡ s' → Queued (now + cfg.timeout) s'.queue
    gave_up same =
        subst (λ t. Queued (now + cfg.timeout) t.queue) same
          (subst (Queued (now + cfg.timeout)) (sym (fail_query_held q peer s).1) h)

pub receive-Queued :
    (cfg : Config) (link : Link) (quic : QuicReply) (q : List ℕ) (peer now : ℕ) (s s' : Requests)
    → Queued (now + cfg.timeout) s.queue
    → receive cfg link quic q peer now s ≡ some s'
    → Queued (now + cfg.timeout) s'.queue
unfolding receive
receive-Queued cfg link quic q peer now s s' h e = elim (Result-cases (validate_query q)) [
  | inl (u, valid) ↦ accept-Queued cfg link quic q peer now s s' h (rw (receive, valid) at e)
  | inr (x, invalid) ↦
      subst (λ t. Queued (now + cfg.timeout) t.queue) (some-injective (rw (receive, invalid) at e))
        h
]

-- One query of the queue sent or given up.
pub flush_front_queue :
    (cfg : Config) (quic : QuicReply) (now : ℕ) (q : QueuedQuery) (queue : List QueuedQuery)
    (s s' : Requests)
    → flush_front cfg quic now (q ∷ queue) s ≡ some s'
    → s'.queue ≡ queue
unfolding flush_front
flush_front_queue cfg quic now q queue s s' e =
    let rest : Requests = record s { queue = queue } in
    elim (if-cases (leb q.deadline now) (some (fail_query q.query q.peer rest))
      (dispatch_query cfg quic q.query q.peer now rest) (some s') e) [
        | inl (stale, same) ↦
            ap (λ (t : Requests). t.queue) (sym (some-injective same))
            ∙ (fail_query_held q.query q.peer rest).1
        | inr (in_time, sent) ↦ dispatch_query_queue cfg quic q.query q.peer now rest s' sent
      ]

pub give_up_held :
    (k : ℕ) (o : Option Pending) (s : Requests)
    → find_key k s.pending ≡ o
    → ((give_up k o s).pending ≡ remove_key k s.pending) × ((give_up k o s).queue ≡ s.queue)
unfolding give_up
give_up_held k none s e = (sym (remove-absent k s.pending e), refl)
give_up_held k (some p) s e =
    fail_query_held p.query p.peer (record s { pending = remove_key k s.pending })

pub apply_event_queue :
    (now : ℕ) (ev : H3Event) (s : Requests) → (apply_event now ev s).queue ≡ s.queue
unfolding apply_event
apply_event_queue now (responded stream body) s = answered (find_key stream s.pending)
  where
    answered : (o : Option Pending) → (answer now stream body o s).queue ≡ s.queue
    answered none = unfold answer in refl
    answered (some p) = unfold answer in refl
apply_event_queue now (failed stream) s = (give_up_held stream (find_key stream s.pending) s refl).1
apply_event_queue now goaway_event s = refl

fail_each_queue : (m : List (ℕ × Pending)) (s : Requests) → (fail_each m s).queue ≡ s.queue
unfolding fail_each
fail_each_queue [] s = refl
fail_each_queue ((k, p) ∷ m) s =
    fail_each_queue m (fail_query p.query p.peer s) ∙ (fail_query_held p.query p.peer s).1

pub fail_all_pending_queue : (s : Requests) → (fail_all_pending s).queue ≡ s.queue
unfolding fail_all_pending
fail_all_pending_queue s = fail_each_queue s.pending s
