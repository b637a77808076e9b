-- ===== src/Worker/Requests/Answers.antt =====
-- worker.rs: each way to answer queries, or to give them up, keeps the balance.
use nix_config.Common.{
  Distinct, length-remove, remove-Distinct, some-injective, ℕ, ◌+◌, ◌≤◌, ◌≡◌, refl, ap, subst, sym,
  List, [], ◌∷◌, Bool-cases, inl, inr, Option, none, some, if◌then◌else◌, leb, length,
  length-append, All, find_key, remove_key, arith,
}
use nix_config.Dns.Servfail.{build_servfail}
use nix_config.Worker.Quality.{on_failure}
use nix_config.Worker.Dispatch.{Config}
use nix_config.Worker.Requests.{
  Pending, QueuedQuery, Requests, QuicReply, fail_query, dispatch_query, flush_front, answer,
  give_up, give_up_all, expire_front, fail_each, echo_id,
}
use nix_config.Worker.Requests.Held.{
  LongPending, LongQueued, Held, held_total, send_servfail-sends, remove-LongPending,
  find-LongPending,
}
use nix_config.Worker.Requests.Balance.{Balanced, FreshIn, fail-Balanced, dispatch-Balanced}

pub answer-Balanced :
    (now stream : ℕ) (body : List ℕ) (o : Option Pending) (s : Requests)
    → Held s
    → find_key stream s.pending ≡ o
    → Balanced 0 s (answer now stream body o s)
unfolding answer held_total
answer-Balanced now stream body none s h e = (h, omega arith)
answer-Balanced now stream body (some p) s h e = (
  record {
    distinct = remove-Distinct stream s.pending h.distinct;
    pending_long = remove-LongPending stream s.pending h.pending_long;
    queue_long = h.queue_long;
  },
  omega (
    arith,
    length-append s.sent ((echo_id p.query body, p.peer) ∷ []),
    length-remove stream s.pending p h.distinct e,
  ),
)

pub give_up-Balanced :
    (stream : ℕ) (o : Option Pending) (s : Requests)
    → Held s
    → find_key stream s.pending ≡ o
    → Balanced 0 s (give_up stream o s)
unfolding give_up
give_up-Balanced stream none s h e = (h, omega arith)
give_up-Balanced stream (some p) s h e =
    let removed : Requests = record s { pending = remove_key stream s.pending } in
    let r =
      fail-Balanced p.query p.peer removed (find-LongPending stream s.pending p h.pending_long e)
        (record {
          distinct = remove-Distinct stream s.pending h.distinct;
          pending_long = remove-LongPending stream s.pending h.pending_long;
          queue_long = h.queue_long;
        }) in
    let fewer : held_total s ≡ held_total removed + 1 =
      unfold held_total in omega (arith, length-remove stream s.pending p h.distinct e) in
    (r.0, omega (arith, r.1, fewer))

pub give_up_all-Balanced : (ks : List ℕ) (s : Requests) → Held s → Balanced 0 s (give_up_all ks s)
unfolding give_up_all
give_up_all-Balanced [] s h = (h, omega arith)
give_up_all-Balanced (k ∷ ks) s h =
    let one = give_up-Balanced k (find_key k s.pending) s h refl in
    let rest = give_up_all-Balanced ks (give_up k (find_key k s.pending) s) one.0 in
    (rest.0, omega (arith, one.1, rest.1))

pub flush_front-Balanced :
    (cfg : Config) (quic : QuicReply) (now : ℕ) (queue : List QueuedQuery) (s s' : Requests)
    → s.queue ≡ queue
    → Held s
    → FreshIn quic.opened s.pending
    → flush_front cfg quic now queue s ≡ some s'
    → Balanced 0 s s'
unfolding flush_front
flush_front-Balanced cfg quic now [] s s' same h fresh e =
    subst (Balanced 0 s) (some-injective e) (h, omega arith)
flush_front-Balanced cfg quic now (q ∷ queue) s s' same h fresh e =
    let rest : Requests = record s { queue = queue } in
    let longs : All LongQueued (q ∷ queue) = subst (All LongQueued) same h.queue_long in
    let held : Held rest = record {
      distinct = h.distinct;
      pending_long = h.pending_long;
      queue_long = longs.1;
    } in
    let popped : held_total s ≡ held_total rest + 1 =
      unfold held_total in omega (arith, ap (λ (t : List QueuedQuery). length t) same) in
    let r = after rest s' longs.0 held fresh e in (r.0, omega (arith, r.1, popped))
  where
    after :
        (rest s' : Requests)
        → 12 ≤ length q.query
        → Held rest
        → FreshIn quic.opened rest.pending
        → (if leb q.deadline now
            then some (fail_query q.query q.peer rest)
            else dispatch_query cfg quic q.query q.peer now rest)
          ≡ some s'
        → Balanced 1 rest s'
    after rest s' long held fresh e = elim (Bool-cases (leb q.deadline now)) [
      | inl stale ↦
          subst (Balanced 1 rest) (some-injective (rw stale at e))
            (fail-Balanced q.query q.peer rest long held)
      | inr in_time ↦
          dispatch-Balanced cfg quic q.query q.peer now rest s' long held fresh (rw in_time at e)
    ]

-- A query that fails is one more answer, and changes nothing else that is held.
sent_one :
    (q : List ℕ) (peer : ℕ) (s : Requests)
    → 12 ≤ length q
    → length (fail_query q peer s).sent ≡ length s.sent + 1
sent_one q peer s long =
    let reply : List ℕ × ℕ = ((build_servfail q []).1, peer) in
    rw (send_servfail-sends q peer (record s { quality = on_failure s.quality }) long)
      (omega (arith, length-append s.sent (reply ∷ [])))

fail_query_pending :
    (q : List ℕ) (peer : ℕ) (s : Requests)
    → 12 ≤ length q
    → ((fail_query q peer s).pending ≡ s.pending) × ((fail_query q peer s).queue ≡ s.queue)
fail_query_pending q peer s long =
    rw (send_servfail-sends q peer (record s { quality = on_failure s.quality }) long) (refl, refl)

pub expire_front-Balanced :
    (now : ℕ) (queue : List QueuedQuery) (s : Requests)
    → All LongQueued queue
    → Held s
    → Balanced 0 (record s { queue = queue }) (expire_front now queue s)
unfolding expire_front held_total
expire_front-Balanced now [] s longs h =
    (record { distinct = h.distinct; pending_long = h.pending_long; queue_long = tt }, omega arith)
expire_front-Balanced now (q ∷ queue) s (long, longs) h = elim (Bool-cases (leb q.deadline now)) [
  | inr kept ↦ rw kept (
    record { distinct = h.distinct; pending_long = h.pending_long; queue_long = (long, longs) },
    omega arith,
  )
  | inl stale ↦
      let gave_up : Requests = fail_query q.query q.peer s in
      let rest =
        expire_front-Balanced now queue gave_up longs (fail-Balanced q.query q.peer s long h).0 in
      let sent = sent_one q.query q.peer s long in
      let held =
        ap (λ (m : List (ℕ × Pending)). length m) (fail_query_pending q.query q.peer s long).0 in
      rw stale (rest.0, omega (arith, rest.1, sent, held))
]

pub fail_each-Balanced :
    (m : List (ℕ × Pending)) (s : Requests)
    → All LongPending m
    → All LongQueued s.queue
    → Balanced 0 (record s { pending = m }) (fail_each m s)
unfolding fail_each held_total
fail_each-Balanced [] s longs h =
    (record { distinct = unfold Distinct in tt; pending_long = tt; queue_long = h }, omega arith)
fail_each-Balanced ((k, p) ∷ m) s (long, longs) h =
    let gave_up : Requests = fail_query p.query p.peer s in
    let same = (fail_query_pending p.query p.peer s long).1 in
    let rest = fail_each-Balanced m gave_up longs (subst (All LongQueued) (sym same) h) in
    let queued = ap (λ (t : List QueuedQuery). length t) same in
    (rest.0, omega (arith, rest.1, sent_one p.query p.peer s long, queued))
