-- ===== src/Worker/Requests/Held.antt =====
-- worker.rs: what the queries that a worker holds have in common, and how many there are.
use nix_config.Common.{
  Distinct, ℕ, ◌+◌, ◌≤◌, ◌≡◌, refl, ap, List, [], ◌∷◌, ◌++◌, true, Bool-cases, inl, inr, Option,
  none, some, leb, ◌==◌, length, All, find_key, remove_key, arith, Result, ok, err,
}
use nix_config.Dns.{DnsError}
use nix_config.Dns.Question.{question_end}
use nix_config.Dns.Servfail.{build_servfail, kept_len}
use nix_config.Worker.Requests.{Pending, QueuedQuery, Requests, send_servfail}

-- A full header, which every valid query has.
abbrev pub LongPending : ℕ × Pending → Type 0
LongPending (k, p) = 12 ≤ length p.query

abbrev pub LongQueued : QueuedQuery → Type 0
LongQueued q = 12 ≤ length q.query

pub record Held (s : Requests) : Type 0 where
  pub distinct : Distinct s.pending
  pub pending_long : All LongPending s.pending
  pub queue_long : All LongQueued s.queue

-- The queries that wait, and those that are answered.
unfoldable pub held_total : Requests → ℕ
held_total s = length s.pending + length s.queue + length s.sent

kept-long : (q : List ℕ) (r : Result DnsError ℕ) → 12 ≤ length q → (n : ℕ) × (kept_len q r ≡ some n)
unfolding kept_len
kept-long q (ok e) h = elim (Bool-cases (leb e (length q))) [
  | inl inside ↦ (e, rw inside refl)
  | inr past ↦ (12, rw past (ground arith))
]
kept-long q (err x) h = (12, ground arith)

servfail_sent : (q : List ℕ) → 12 ≤ length q → (build_servfail q []).0 ≡ true
unfolding build_servfail
servfail_sent q h = rw (build_servfail, (kept-long q (question_end q) h).1) refl

-- A query that has a full header is answered.
pub send_servfail-sends :
    (q : List ℕ) (peer : ℕ) (s : Requests)
    → 12 ≤ length q
    → send_servfail q peer s ≡ record s { sent = s.sent ++ ((build_servfail q []).1, peer) ∷ [] }
unfolding send_servfail
send_servfail-sends q peer s h = rw (send_servfail, servfail_sent q h) refl

pub remove-LongPending :
    (k : ℕ) (m : List (ℕ × Pending)) → All LongPending m → All LongPending (remove_key k m)
unfolding remove_key
remove-LongPending k [] h = tt
remove-LongPending k ((j, q) ∷ m) (long, h) = elim (Bool-cases (j == k)) [
  | inl same ↦ rw same (remove-LongPending k m h)
  | inr other ↦ rw other (long, remove-LongPending k m h)
]

pub find-LongPending :
    (k : ℕ) (m : List (ℕ × Pending)) (p : Pending)
    → All LongPending m
    → find_key k m ≡ some p
    → 12 ≤ length p.query
unfolding find_key
find-LongPending k [] p h e = cc
find-LongPending k ((j, q) ∷ m) p (long, h) e = elim (Bool-cases (j == k)) [
  | inl same ↦ omega (arith, same_query q p (rw same at e))
  | inr other ↦ find-LongPending k m p h (rw other at e)
]
  where
    query_len : Option Pending → ℕ
    query_len none = 0
    query_len (some r) = length r.query

    same_query : (q p : Pending) → some q ≡ some p → length q.query ≡ length p.query
    same_query q p e = ap query_len e
