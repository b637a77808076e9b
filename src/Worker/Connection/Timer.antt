-- ===== src/Worker/Connection/Timer.antt =====
-- worker.rs: the timer of the event loop against the deadlines that a worker has.
use nix_config.Common.{
  ℕ, ◌≤◌, ◌≡◌, ◌⊎◌, inl, inr, refl, ◌∙◌, sym, ap, subst, leb, Bool-cases, List, [], ◌∷◌, ◌++◌,
  Option, none, some, All, arith,
}
use mathlib.Core.List.{Mem, mem-cons_self, mem-cons_of_mem}
use nix_config.Worker.Requests.{Pending, QueuedQuery}
use nix_config.Worker.Connection.{Worker}
use nix_config.Worker.Connection.Housekeeping.{
  earlier, earliest_pending, arm_reconnect, arm_front, next_wakeup,
}

abbrev pub at_most : Option ℕ → List ℕ
at_most none = []
at_most (some t) = t ∷ []

unfoldable pub pending_deadlines : List (ℕ × Pending) → List ℕ
pending_deadlines [] = []
pending_deadlines ((k, p) ∷ m) = p.deadline ∷ pending_deadlines m

-- The queue is in the order of its deadlines, so that its front is the first.
abbrev pub front_deadline : List QueuedQuery → List ℕ
front_deadline [] = []
front_deadline (q ∷ queue) = q.deadline ∷ []

-- Everything that a worker waits for.
unfoldable pub deadlines : Option ℕ → Worker → List ℕ
deadlines quic_timeout w =
    front_deadline w.requests.queue
    ++ (pending_deadlines w.requests.pending ++ (at_most w.reconnect_at ++ at_most quic_timeout))

-- The least of a list, and none of an empty one.
unfoldable least : List ℕ → Option ℕ
least [] = none
least (t ∷ ts) = earlier (least ts) t

earlier_swap : (o : Option ℕ) (a b : ℕ) → earlier (earlier o a) b ≡ earlier (earlier o b) a
unfolding earlier
earlier_swap none a b = ground arith
earlier_swap (some n) a b = ground arith

least-append_cons : (l t : List ℕ) (d : ℕ) → least (l ++ d ∷ t) ≡ earlier (least (l ++ t)) d
unfolding least
least-append_cons [] t d = refl
least-append_cons (a ∷ l) t d = rw (least-append_cons l t d, earlier_swap (least (l ++ t)) d a) refl

earliest_pending-least :
    (m : List (ℕ × Pending)) (t : List ℕ)
    → earliest_pending m (least t) ≡ least (pending_deadlines m ++ t)
unfolding earliest_pending pending_deadlines least
earliest_pending-least [] t = refl
earliest_pending-least ((k, p) ∷ m) t =
    earliest_pending-least m (p.deadline ∷ t) ∙ least-append_cons (pending_deadlines m) t p.deadline

arm_reconnect-least :
    (quic_timeout reconnect_at : Option ℕ)
    → arm_reconnect quic_timeout reconnect_at ≡ least (at_most reconnect_at ++ at_most quic_timeout)
unfolding arm_reconnect earlier least
arm_reconnect-least none none = refl
arm_reconnect-least (some q) none = refl
arm_reconnect-least none (some t) = refl
arm_reconnect-least (some q) (some t) = refl

arm_front-least :
    (queue : List QueuedQuery) (ts : List ℕ)
    → arm_front (least ts) queue ≡ least (front_deadline queue ++ ts)
unfolding arm_front least
arm_front-least [] ts = refl
arm_front-least (q ∷ queue) ts = refl

next_wakeup-least :
    (quic_timeout : Option ℕ) (w : Worker)
    → next_wakeup quic_timeout w ≡ least (deadlines quic_timeout w)
unfolding next_wakeup deadlines
next_wakeup-least quic_timeout w =
    let armed = at_most w.reconnect_at ++ at_most quic_timeout in
    rw
      (
        arm_reconnect-least quic_timeout w.reconnect_at,
        earliest_pending-least w.requests.pending armed,
        arm_front-least w.requests.queue (pending_deadlines w.requests.pending ++ armed),
      )
      refl

-- The least of the deadlines, where there is one.
unfoldable pub Earliest : Option ℕ → List ℕ → Type 0
Earliest o ts = ((o ≡ none) × (ts ≡ [])) ⊎ ((t : ℕ) × (o ≡ some t) × Mem t ts × All (λ u. t ≤ u) ts)

All-le : (t u : ℕ) (ts : List ℕ) → t ≤ u → All (λ v. u ≤ v) ts → All (λ v. t ≤ v) ts
All-le t u [] le h = tt
All-le t u (a ∷ ts) le (first, h) = (omega arith, All-le t u ts le h)

least-Earliest : (ts : List ℕ) → Earliest (least ts) ts
unfolding least earlier Earliest
least-Earliest [] = inl (refl, refl)
least-Earliest (a ∷ ts) = elim (least-Earliest ts) [
  | inl (gone, empty) ↦ rw (gone, empty) (inr (a, refl, mem-cons_self, (omega arith, tt)))
  | inr (t, found, inside, below) ↦ elim (Bool-cases (leb t a)) [
    | inl first ↦
        inr (t, rw found (ap some (ground arith)), mem-cons_of_mem a inside, (ground arith, below))
    | inr later ↦ inr (
      a,
      rw found (ap some (ground arith)),
      mem-cons_self,
      (omega arith, All-le a t ts (ground arith) below),
    )
  ]
]

-- The timer is armed for the earliest of what the worker waits for: the library's timeout, the reconnect,
-- the deadline of each query that waits for a response, and that of the first query queued; it is not
-- armed where there is none of these.
pub next_wakeup-Earliest :
    (quic_timeout : Option ℕ) (w : Worker)
    → Earliest (next_wakeup quic_timeout w) (deadlines quic_timeout w)
next_wakeup-Earliest quic_timeout w =
    subst (λ o. Earliest o (deadlines quic_timeout w)) (sym (next_wakeup-least quic_timeout w))
      (least-Earliest (deadlines quic_timeout w))
