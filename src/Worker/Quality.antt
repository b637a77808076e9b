-- ===== src/Worker/Quality.antt =====
-- worker.rs: `Quality`, the rolling measurement of the address in use. Latencies are microseconds.
use nix_config.Common.{
  ℕ, ◌+◌, ◌-◌, ◌*◌, ◌/◌, ◌^◌, ◌≤◌, ◌<◌, ◌≡◌, ◌↔◌, ◌⊎◌, refl, Option, if◌then◌else◌, ◌==◌, min, max,
  arith,
}
use native.Mathlib.Nat.{div-add-mod, mod-lt, lt_of_mul-lt-mul_left, mul-le-mul_right}
use nix_config.Shared.Address.{IpAddr, score_from_rtt}
use nix_config.Shared.Scores.{ScoreSample}

pub record Quality : Type 0 where
  pub ewma_us : ℕ
  pub ok_requests : ℕ
  pub failed : ℕ

abbrev pub new_quality : Quality
new_quality = record { ewma_us = 0; ok_requests = 0; failed = 0 }

abbrev pub u32_max : ℕ
u32_max = 2 ^ 32 - 1

abbrev pub saturating_inc : ℕ → ℕ
saturating_inc n = min (n + 1) u32_max

unfoldable pub on_success : ℕ → Quality → Quality
on_success micros q =
    let us = min micros u32_max in
    let counted = record q { ok_requests = saturating_inc q.ok_requests } in
    if q.ewma_us == 0
    then record counted { ewma_us = us }
    else record counted { ewma_us = (q.ewma_us * 3 + us) / 4 }

unfoldable pub on_failure : Quality → Quality
on_failure q = record q { failed = saturating_inc q.failed }

unfoldable pub sample : Option IpAddr → ℕ → Quality → ScoreSample
sample addr flags q = record {
  addr = addr;
  score = score_from_rtt (min q.ewma_us u32_max);
  ok_requests = q.ok_requests;
  fail_requests = q.failed;
  flags = flags;
  updated_mono_secs = 0;
}

unfoldable pub reset_window : Quality → Quality
reset_window q = record q { ok_requests = 0; failed = 0 }

-- With an average and a latency below 2 ^ 32 microseconds: a measurement leaves the average between its
-- old value and the latency, or sets it where it was 0; it stays below 2 ^ 32, and neither a failure nor a
-- new window changes it.
pub on_success_average :
    (micros : ℕ) (q : Quality)
    → q.ewma_us < 2 ^ 32
    → micros < 2 ^ 32
    → let average = (on_success micros q).ewma_us in
      (average < 2 ^ 32)
      × (((q.ewma_us ≡ 0) × (average ≡ micros))
          ⊎ ((0 < q.ewma_us) × (min q.ewma_us micros ≤ average) × (average ≤ max q.ewma_us micros)))
      × ((on_failure q).ewma_us ≡ q.ewma_us)
      × ((reset_window q).ewma_us ≡ q.ewma_us)
unfolding on_success on_failure reset_window
on_success_average micros q bound h = (ground arith, ground arith, refl, refl)

quotient_zero : (e : ℕ) → 0 < e → (1_000_000 / e ≡ 0) ↔ (1_000_000 < e)
quotient_zero e h =
    let whole = div-add-mod 1_000_000 e in
    let low = mod-lt 1_000_000 h in
    (
      (λ z. omega (arith, rw z at whole, low)),
      (λ big.
          omega
            (arith, lt_of_mul-lt-mul_left e {m = 1_000_000 / e} {n = 1} (omega (arith, whole)))),
    )

-- With an average below 2 ^ 32 microseconds, the score is 0 exactly where the average is 0 and where it is
-- above a second.
pub sample_score_zero :
    (addr : Option IpAddr) (flags : ℕ) (q : Quality)
    → q.ewma_us < 2 ^ 32
    → ((sample addr flags q).score ≡ 0) ↔ ((q.ewma_us ≡ 0) ⊎ (1_000_000 < q.ewma_us))
unfolding sample score_from_rtt
sample_score_zero addr flags q h =
    let capped : min q.ewma_us u32_max ≡ q.ewma_us = omega arith in
    rw capped (
      (λ e. ground (arith, quotient_zero q.ewma_us)),
      (λ e. ground (arith, quotient_zero q.ewma_us)),
    )

-- Of two workers that have measured something, the one with the lower average has no lower score.
pub sample_score_le :
    (addr : Option IpAddr) (flags : ℕ) (q r : Quality)
    → r.ewma_us < 2 ^ 32
    → 0 < q.ewma_us
    → q.ewma_us ≤ r.ewma_us
    → (sample addr flags r).score ≤ (sample addr flags q).score
unfolding sample score_from_rtt
sample_score_le addr flags q r bound some le =
    let q_capped : min q.ewma_us u32_max ≡ q.ewma_us = omega arith in
    let r_capped : min r.ewma_us u32_max ≡ r.ewma_us = omega arith in
    rw (q_capped, r_capped) (ground (arith, quotient_le q.ewma_us r.ewma_us some le))
  where
    quotient_le : (a b : ℕ) → 0 < a → a ≤ b → 1_000_000 / b ≤ 1_000_000 / a
    quotient_le a b h le =
        let scaled = mul-le-mul_right (1_000_000 / b) le in
        let lower = div-add-mod 1_000_000 b in
        let upper = div-add-mod 1_000_000 a in
        let low = mod-lt 1_000_000 h in
        omega (
          arith,
          lt_of_mul-lt-mul_left a {m = 1_000_000 / b} {n = 1_000_000 / a + 1}
              (omega (arith, scaled, lower, upper, low)),
        )
