-- ===== src/Worker/Requests/Queue/Deadlines.antt =====
-- worker.rs: the queries that are held after the expiry of `housekeeping`.
use nix_config.Common.{
  remove_all, Fails, remove_all-keys_where, ℕ, ◌≤◌, ◌<◌, ◌≡◌, inl, inr, refl, sym, ◌∙◌, ap, subst,
  List, [], ◌∷◌, Bool-cases, leb, All, find_key, arith,
}
use nix_config.Worker.Requests.{
  Pending, QueuedQuery, Requests, fail_query, give_up, expired_keys, give_up_all, expire_pending,
  expire_front,
}
use nix_config.Worker.Requests.Queue.{Ascending, Queued, fail_query_held, give_up_held}

abbrev pub InTime : ℕ → QueuedQuery → Type 0
InTime now q = now < q.deadline

abbrev pub PendingInTime : ℕ → ℕ × Pending → Type 0
PendingInTime now (k, p) = now < p.deadline

give_up_all_held :
    (ks : List ℕ) (s : Requests)
    → ((give_up_all ks s).pending ≡ remove_all ks s.pending) × ((give_up_all ks s).queue ≡ s.queue)
unfolding give_up_all remove_all
give_up_all_held [] s = (refl, refl)
give_up_all_held (k ∷ ks) s =
    let (pending, queue) = give_up_held k (find_key k s.pending) s refl in
    let (later, same) = give_up_all_held ks (give_up k (find_key k s.pending) s) in
    (later ∙ ap (remove_all ks) pending, same ∙ queue)

Fails-InTime :
    (now : ℕ) (m : List (ℕ × Pending))
    → All (Fails (λ (p : Pending). leb p.deadline now)) m
    → All (PendingInTime now) m
Fails-InTime now [] h = tt
Fails-InTime now ((k, p) ∷ m) (first, h) = (ground arith, Fails-InTime now m h)

pub expire_pending-InTime :
    (now : ℕ) (s : Requests) → All (PendingInTime now) (expire_pending now s).pending
unfolding expire_pending expired_keys
expire_pending-InTime now s =
    subst (All (PendingInTime now)) (sym (give_up_all_held (expired_keys now s.pending) s).0)
      (Fails-InTime now _ (remove_all-keys_where (λ p. leb p.deadline now) s.pending))

pub expire_pending_queue : (now : ℕ) (s : Requests) → (expire_pending now s).queue ≡ s.queue
unfolding expire_pending
expire_pending_queue now s = (give_up_all_held (expired_keys now s.pending) s).1

Ascending-InTime :
    (now : ℕ) (q : QueuedQuery) (queue : List QueuedQuery)
    → now < q.deadline
    → All (λ r. q.deadline ≤ r.deadline) queue
    → All (InTime now) queue
Ascending-InTime now q [] h a = tt
Ascending-InTime now q (r ∷ queue) h (first, a) = (omega arith, Ascending-InTime now q queue h a)

-- The queue after its expiry is in time and in order; the queries that wait are left.
pub expire_front-InTime :
    (now t : ℕ) (queue : List QueuedQuery) (s : Requests)
    → Queued t queue
    → let s' = expire_front now queue s in
      All (InTime now) s'.queue × Queued t s'.queue × (s'.pending ≡ s.pending)
unfolding expire_front Queued Ascending
expire_front-InTime now t [] s h = (tt, (tt, tt), refl)
expire_front-InTime now t (q ∷ queue) s ((first, a), (le, w)) =
    elim (Bool-cases (leb q.deadline now)) [
      | inl stale ↦
          let (in_time, queued, same) =
            expire_front-InTime now t queue (fail_query q.query q.peer s) (a, w) in
          rw (expire_front, stale) (in_time, queued, same ∙ (fail_query_held q.query q.peer s).0)
      | inr kept ↦
          let later : now < q.deadline = ground arith in
          rw (expire_front, kept)
            ((later, Ascending-InTime now q queue later first), ((first, a), (le, w)), refl)
    ]
