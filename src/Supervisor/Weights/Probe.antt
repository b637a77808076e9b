-- ===== src/Supervisor/Weights/Probe.antt =====
-- main.rs: the share of an address that nobody has measured, against the slots of the workers.
use nix_config.Common.{ℕ, ◌+◌, ◌/◌, ◌≡◌, List, [], ◌∷◌, false, Option, none, some}
use nix_config.Shared.Address.{IpAddr}
use nix_config.Shared.Upstream.{ip_eq, ip_eq, UpstreamSet}
use nix_config.Shared.Scores.{ScoreSample}

abbrev pub reported : IpAddr → ℕ → Option ScoreSample
reported addr score = some (record {
  addr = some addr;
  score = score;
  ok_requests = 1;
  fail_requests = 0;
  flags = 1;
  updated_mono_secs = 1;
})

-- What the supervisor publishes of the weights.
abbrev pub weights_of : List (IpAddr × ℕ) → List ℕ
weights_of [] = []
weights_of ((a, w) ∷ l) = w ∷ weights_of l

abbrev pub addrs_of : List (IpAddr × ℕ) → List IpAddr
addrs_of [] = []
addrs_of ((a, w) ∷ l) = a ∷ addrs_of l

unfoldable pub publishes : List (IpAddr × ℕ) → ℕ → UpstreamSet
publishes l worker_count = record {
  addrs = addrs_of l;
  weights = weights_of l;
  revision = 1;
  workers = worker_count;
  published_mono_secs = 1;
}

module _ (a b c d : IpAddr) where
  abbrev pub four : List IpAddr
  four = a ∷ b ∷ c ∷ d ∷ []

  -- Three reports of one score, and a worker without a report.
  abbrev pub three_reports : ℕ → List (Option ScoreSample)
  three_reports score = reported a score ∷ reported b score ∷ reported c score ∷ none ∷ []

  abbrev pub four_weights : ℕ → List (IpAddr × ℕ)
  four_weights score = (a, score) ∷ (b, score) ∷ (c, score) ∷ (d, score / 8 + score / 4) ∷ []

  -- The three that are reported are different.
  unfoldable pub Apart : Type 0
  Apart = (ip_eq a b ≡ false) × (ip_eq a c ≡ false) × (ip_eq b c ≡ false)
