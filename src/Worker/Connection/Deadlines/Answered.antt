-- ===== src/Worker/Connection/Deadlines/Answered.antt =====
-- worker.rs: the queries that a worker holds, and their deadlines, when the timer fires.
use nix_config.Common.{
  ℕ, ◌+◌, ◌≡◌, inl, inr, refl, sym, ap, ◌∙◌, subst, List, [], ◌∷◌, Bool, ◌&&◌, chained,
  some-injective, Bool-cases, Option-cases, Option, none, some, leb, All, arith,
}
use nix_config.Shared.Upstream.{UpstreamSet}
use nix_config.Worker.Dispatch.{Config}
use nix_config.Worker.Requests.{Requests, expire_pending, expire_queue}
use nix_config.Worker.Requests.Queue.{Ascending, Queued, Queued-later, fail_all_pending_queue}
use nix_config.Worker.Requests.Queue.Deadlines.{
  InTime, PendingInTime, expire_pending-InTime, expire_pending_queue, expire_front-InTime,
}
use nix_config.Worker.Connection.{
  Worker, ConnectReply, send_preamble, connect, connect_and_preamble, drop_conn, count_failure,
  fail_pending, drop_drained, close_stale, settle, reconnect,
}
use nix_config.Worker.Connection.Events.{
  quic_events, h3_events, process_quic_events, poll_events, no_pending,
}
use nix_config.Worker.Connection.Housekeeping.{
  adopt, expire, publish_score, drain_goaway, migrate, move_to, housekeeping,
}
use nix_config.Worker.Connection.Turns.{
  Ready, dns_ready, quic_ready, timer_ready, turn_ends, drain_loop, link_of, drain_dns, turn, turns,
}
use nix_config.Worker.Connection.Steady.Runs.{InOrder, last_instant}
use nix_config.Worker.Connection.Deadlines.{
  WorkerQueued, drain_loop-Queued, quic_events-Queued, h3_events_queue,
}

-- The queries held are the same, and nothing is sent to a client.
abbrev pub SameHeld : Worker → Worker → Type 0
SameHeld w w' =
    (w'.requests.pending ≡ w.requests.pending)
    × (w'.requests.queue ≡ w.requests.queue)
    × (w'.requests.sent ≡ w.requests.sent)

SameHeld-trans : (u v w : Worker) → SameHeld u v → SameHeld v w → SameHeld u w
SameHeld-trans u v w (a, b, c) (a', b', c') = (a' ∙ a, b' ∙ b, c' ∙ c)

settle-SameHeld :
    (now : ℕ) (reply : ConnectReply) (w : Worker)
    → SameHeld w (settle now (connect_and_preamble reply (close_stale w)))
settle-SameHeld now reply w =
    SameHeld-trans w (close_stale w) (settle now (connect_and_preamble reply (close_stale w)))
      closed (made (close_stale w))
  where
    made : (v : Worker) → SameHeld v (settle now (connect_and_preamble reply v))
    made v = unfold settle connect_and_preamble connect send_preamble count_failure in ground arith

    closed : SameHeld w (close_stale w)
    closed = unfold close_stale drop_conn in ground arith

pub reconnect-SameHeld :
    (now : ℕ) (reply : ConnectReply) (w : Worker) → SameHeld w (reconnect now reply w)
unfolding reconnect
reconnect-SameHeld now reply w = elim (Option-cases w.reconnect_at) [
  | inl never ↦ rw (reconnect, never) (refl, refl, refl)
  | inr (t, set) ↦ elim (Bool-cases (leb t now)) [
    | inl due ↦ rw (reconnect, set, due) (settle-SameHeld now reply w)
    | inr later ↦ rw (reconnect, set, later) (refl, refl, refl)
  ]
]

publish_score-SameHeld : (now secs : ℕ) (w : Worker) → SameHeld w (publish_score now secs w)
unfolding publish_score
publish_score-SameHeld now secs w = ground arith

drain_goaway-SameHeld : (now : ℕ) (w : Worker) → SameHeld w (drain_goaway now w)
unfolding drain_goaway
drain_goaway-SameHeld now w = ground arith

migrate-SameHeld : (now secs : ℕ) (w : Worker) → SameHeld w (migrate now secs w)
unfolding migrate move_to
migrate-SameHeld now secs w = ground arith

expire_requests :
    (now : ℕ) (changed : Option UpstreamSet) (w : Worker)
    → (expire now changed w).requests ≡ expire_queue now (expire_pending now w.requests)
unfolding expire adopt
expire_requests now none w = refl
expire_requests now (some new) w = elim (Bool-cases (no_pending new.addrs)) [
  | inl empty ↦ rw (expire, empty) refl
  | inr some_addrs ↦ rw (expire, some_addrs) refl
]

housekeeping-SameHeld :
    (now secs : ℕ) (changed : Option UpstreamSet) (reply : ConnectReply) (w : Worker)
    → SameHeld (expire now changed w) (housekeeping now secs changed reply w)
unfolding housekeeping
housekeeping-SameHeld now secs changed reply w =
    let expired = expire now changed w in
    let scored = publish_score now secs expired in
    let drained = drain_goaway now scored in
    let moved = migrate now secs drained in
    SameHeld-trans expired scored (reconnect now reply moved)
      (publish_score-SameHeld now secs expired)
      (SameHeld-trans scored drained (reconnect now reply moved) (drain_goaway-SameHeld now scored)
        (SameHeld-trans drained moved (reconnect now reply moved)
          (migrate-SameHeld now secs drained) (reconnect-SameHeld now reply moved)))

-- All that is held is in time, and the queue in order.
abbrev pub HeldInTime : ℕ → Requests → Type 0
HeldInTime now s = All (PendingInTime now) s.pending × All (InTime now) s.queue

expire-InTime :
    (now t : ℕ) (s : Requests)
    → Queued t s.queue
    → let s' = expire_queue now (expire_pending now s) in HeldInTime now s' × Queued t s'.queue
unfolding expire_queue
expire-InTime now t s h =
    let s' = expire_pending now s in
    let (in_time, queued, same) =
      expire_front-InTime now t s'.queue s'
        (subst (Queued t) (sym (expire_pending_queue now s)) h) in
    ((subst (All (PendingInTime now)) (sym same) (expire_pending-InTime now s), in_time), queued)

housekeeping-InTime :
    (now secs t : ℕ) (changed : Option UpstreamSet) (reply : ConnectReply) (w : Worker)
    → WorkerQueued t w
    → let w' = housekeeping now secs changed reply w in
      HeldInTime now w'.requests × WorkerQueued t w'
housekeeping-InTime now secs t changed reply w h =
    let ((waiting, queue), queued) = expire-InTime now t w.requests h in
    let same = expire_requests now changed w in
    let (p, q, sent) = housekeeping-SameHeld now secs changed reply w in
    let q' = q ∙ ap (λ (s : Requests). s.queue) same in
    (
      (
        subst (All (PendingInTime now)) (sym (p ∙ ap (λ (s : Requests). s.pending) same)) waiting,
        subst (All (InTime now)) (sym q') queue,
      ),
      subst (Queued t) (sym q') queued,
    )

drop_drained_queue :
    (now : ℕ) (d : Bool) (w : Worker) → (drop_drained now d w).requests.queue ≡ w.requests.queue
unfolding drop_drained drop_conn fail_pending count_failure
drop_drained_queue now d w = elim (Bool-cases (w.has_conn && d)) [
  | inl drained ↦ rw (drop_drained, drained) (fail_all_pending_queue w.requests)
  | inr up ↦ rw (drop_drained, up) refl
]

turn-Queued :
    (cfg : Config) (now : ℕ) (ready : Ready) (w w' : Worker)
    → WorkerQueued (now + cfg.timeout) w
    → turn cfg now ready w ≡ some w'
    → WorkerQueued (now + cfg.timeout) w'
unfolding turn drain_dns process_quic_events
turn-Queued cfg now (dns_ready datagrams) w w' h e =
    let (s, drained, done) =
      chained (drain_loop cfg (link_of w) now datagrams w.requests)
        (λ s. some (record w { requests = s })) w' e in
    subst (WorkerQueued (now + cfg.timeout)) (some-injective done)
      (drain_loop-Queued cfg (link_of w) now datagrams w.requests s h drained)
turn-Queued cfg now (quic_ready evs) w w' h e =
    let t = now + cfg.timeout in
    let (r, done, applied) =
      chained (quic_events cfg now (poll_events w.has_conn evs) (w, []))
        (λ r. some (h3_events now r.1 r.0)) w' e in
    subst (WorkerQueued t) (some-injective applied) (
      subst (Queued t) (sym (h3_events_queue now r.1 r.0))
        (quic_events-Queued cfg now t (poll_events w.has_conn evs) w [] r h done))
turn-Queued cfg now (timer_ready secs changed reply) w w' h e =
    subst (WorkerQueued (now + cfg.timeout)) (some-injective e)
      (housekeeping-InTime now secs (now + cfg.timeout) changed reply w h).1
turn-Queued cfg now (turn_ends is_drained) w w' h e =
    subst (WorkerQueued (now + cfg.timeout)) (some-injective e)
      (subst (Queued (now + cfg.timeout)) (sym (drop_drained_queue now is_drained w)) h)

turns-Queued :
    (cfg : Config) (since : ℕ) (rs : List (ℕ × Ready)) (w w' : Worker)
    → InOrder since rs
    → WorkerQueued (since + cfg.timeout) w
    → turns cfg rs w ≡ some w'
    → WorkerQueued (last_instant since rs + cfg.timeout) w'
unfolding InOrder last_instant turns
turns-Queued cfg since [] w w' o h e =
    subst (WorkerQueued (since + cfg.timeout)) (some-injective e) h
turns-Queued cfg since ((now, ready) ∷ rest) w w' (le, c, o) h e =
    let (t, turned, later) = chained (turn cfg now ready w) (λ t. turns cfg rest t) w' e in
    turns-Queued cfg now rest t w' o
      (turn-Queued cfg now ready w t
        (Queued-later (since + cfg.timeout) (now + cfg.timeout) w.requests.queue (omega arith) h)
        turned)
      later

-- After any turns in the order of time, each connection reported made before it is lost, from a worker
-- whose queue is empty: once the timer fires, at
-- whatever instant, no query that waits for a response or is queued has its deadline at that instant or
-- before it.
pub housekeeping-HeldInTime :
    (cfg : Config) (since : ℕ) (rs : List (ℕ × Ready)) (w w' : Worker) (later secs : ℕ)
    (changed : Option UpstreamSet) (reply : ConnectReply)
    → w.requests.queue ≡ []
    → InOrder since rs
    → turns cfg rs w ≡ some w'
    → HeldInTime later (housekeeping later secs changed reply w').requests
housekeeping-HeldInTime cfg since rs w w' later secs changed reply empty ordered e =
    let queued =
      turns-Queued cfg since rs w w' ordered
        (subst (Queued (since + cfg.timeout)) (sym empty) (unfold Queued Ascending in (tt, tt)))
        e in
    (housekeeping-InTime later secs (last_instant since rs + cfg.timeout) changed reply w' queued).0
