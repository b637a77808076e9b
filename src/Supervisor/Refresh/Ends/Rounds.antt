-- ===== src/Supervisor/Refresh/Ends/Rounds.antt =====
-- main.rs: a refresh of the upstream's addresses over the rounds of the supervisor.
use nix_config.Common.{
  ℕ, zero, suc, ◌+◌, ◌*◌, ◌≤◌, ◌<◌, ◌≡◌, ◌⊎◌, inl, inr, refl, List, [], ◌∷◌, Bool, Bool-cases,
  Option, some, ltb, arith,
}
use nix_config.Worker.Migration.{second}
use nix_config.Bootstrap.Answers.{Packet}
use nix_config.Bootstrap.Async.{AsyncResolve}
use nix_config.Supervisor.Refresh.{Refresh}
use nix_config.Supervisor.Refresh.Ends.{
  Round, after_round, Ended, refresh_round_progress, refresh_round_early,
}

-- The rounds are in the order of time, each at most `gap` after the one before.
unfoldable pub Steps : ℕ → ℕ → List Round → Type 0
Steps gap since [] = Unit
Steps gap since (x ∷ rest) = (since ≤ x.now) × (x.now ≤ since + gap) × Steps gap x.now rest

unfoldable pub last_instant : ℕ → List Round → ℕ
last_instant since [] = since
last_instant since (x ∷ rest) = last_instant x.now rest

-- After one of the rounds the resolution has ended, with half a minute or more to the next.
unfoldable pub EndsIn : (List ℕ → Option Packet) → Bool → List Round → Refresh → Type 0
EndsIn parse prefer [] s = ⊥
EndsIn parse prefer (x ∷ rest) s =
    let t = after_round parse prefer x s in Ended x.now t ⊎ EndsIn parse prefer rest t

-- The time that so many more attempts take at most.
unfoldable budget : ℕ → ℕ → ℕ
budget gap zero = 0
budget gap (suc left) = (3 * second + gap) + budget gap left

one_more :
    (gap left attempts : ℕ)
    → 3 ≤ attempts + left
    → attempts + 1 ≤ 3
    → (n : ℕ) × (left ≡ n + 1) × (budget gap left ≡ (3 * second + gap) + budget gap n)
unfolding budget
one_more gap zero attempts more few = absurd (omega arith)
one_more gap (suc n) attempts more few = (n, omega arith, refl)

rounds_EndsIn :
    (parse : List ℕ → Option Packet) (prefer : Bool) (gap left since : ℕ) (xs : List Round)
    (r : AsyncResolve) (s : Refresh)
    → s.pending ≡ some r
    → 3 ≤ r.attempts + left
    → since < r.deadline
    → Steps gap since xs
    → r.deadline + budget gap left ≤ last_instant since xs
    → EndsIn parse prefer xs s
unfolding EndsIn Steps last_instant
rounds_EndsIn parse prefer gap left since [] r s e more early h late = absurd (omega arith)
rounds_EndsIn parse prefer gap left since (x ∷ rest) r s e more early (le, near, h) late =
    let t = after_round parse prefer x s in
    elim (Bool-cases (ltb x.now r.deadline)) [
      | inl before ↦
          let before' : x.now < r.deadline = ground arith in
          elim (refresh_round_early parse prefer x.now x.started x.readable x.bufs r s e before') [
            | inl ended ↦ inl ended
            | inr (q, found, (attempts, deadline)) ↦ inr (
                rounds_EndsIn parse prefer gap left x.now rest q t found
                  (omega (arith, attempts, more)) (omega (arith, deadline, before')) h
                  (omega (arith, deadline, late)))
          ]
      | inr after ↦
          let after' : r.deadline ≤ x.now = ground arith in
          elim (refresh_round_progress parse prefer x.now x.started x.readable x.bufs r s e
            after') [
              | inl ended ↦ inl ended
              | inr (q, found, attempts, few, next) ↦
                  let (n, one_left, budget_left) = one_more gap left r.attempts more few in
                  inr (
                    rounds_EndsIn parse prefer gap n x.now rest q t found
                      (omega (arith, attempts, one_left, more)) (omega (arith, next)) h
                      (omega (arith, next, near, early, late, budget_left)))
            ]
    ]

-- A resolution that has been sent at least once and whose deadline has not come, and rounds in the order of
-- time, none of them more than `gap` after the one before, that go on for six seconds and twice `gap` after
-- the deadline: after one of them the resolution has ended, whatever arrives, and the next one is half a
-- minute or more away.
pub refresh_rounds_end :
    (parse : List ℕ → Option Packet) (prefer : Bool) (gap since : ℕ) (xs : List Round)
    (r : AsyncResolve) (s : Refresh)
    → s.pending ≡ some r
    → 1 ≤ r.attempts
    → since < r.deadline
    → Steps gap since xs
    → r.deadline + 2 * (3 * second + gap) ≤ last_instant since xs
    → EndsIn parse prefer xs s
refresh_rounds_end parse prefer gap since xs r s e sent early h late =
    rounds_EndsIn parse prefer gap 2 since xs r s e (omega arith) early h
      (unfold budget in omega (arith, late))
