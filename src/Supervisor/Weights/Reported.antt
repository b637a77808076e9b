-- ===== src/Supervisor/Weights/Reported.antt =====
-- main.rs: what the weights take from the samples.
use nix_config.Common.{
  ℕ, zero, suc, ◌+◌, get_elem?, take, All, ◌<◌, ◌≡◌, ◌≢◌, inl, inr, refl, sym, ap, ◌∙◌, subst, List,
  [], ◌∷◌, Bool, true, false, ◌||◌, Option, none, some, Bool-cases, if◌then◌else◌, ◌==◌, ==_iff,
  max, length, set, get_or, get_or-set_self, get_or-set_ne, length-set, length-replicate, replicate,
  arith,
}
use nix_config.Shared.Address.{IpAddr}
use nix_config.Shared.Upstream.{ip_eq, ip_position}
use nix_config.Shared.Upstream.Equal.{found_at, position_listed}
use nix_config.Shared.Scores.{ScoreSample}
use nix_config.Supervisor.Weights.{
  Measurements, measure_at, measure_addr, measure, greatest, measurements, is_at,
}

abbrev pub score_if : Bool → ℕ → List ℕ → List ℕ
score_if true score rest = score ∷ rest
score_if false score rest = rest

abbrev pub reports : IpAddr → Option IpAddr → Bool
reports c none = false
reports c (some addr) = ip_eq c addr

-- The scores that the samples report for an address.
unfoldable pub scores_of : IpAddr → List (Option ScoreSample) → List ℕ
scores_of c [] = []
scores_of c (none ∷ samples) = scores_of c samples
scores_of c (some s ∷ samples) = score_if (reports c s.addr) s.score (scores_of c samples)

-- The address stands at the index, and nowhere before it.
unfoldable pub ListedAt : List IpAddr → ℕ → IpAddr → Type 0
ListedAt candidates i c =
    (get_elem? candidates i ≡ some c) × All (λ a. ip_eq a c ≡ false) (take i candidates)

abbrev pub is_some_score : List ℕ → Bool
is_some_score [] = false
is_some_score (n ∷ ns) = true

-- What one sample does to the entry at an index.
Entry : ℕ → Bool → ℕ → Measurements → Measurements → Type 0
Entry i here score m m' =
    (length m'.0 ≡ length m.0)
    × (length m'.1 ≡ length m.1)
    × (get_or m'.0 i 0 ≡ (if here then max (get_or m.0 i 0) score else get_or m.0 i 0))
    × (get_or m'.1 i false ≡ (get_or m.1 i false || here))

unnoted : (b : Bool) → b ≡ (b || false)
unnoted true = refl
unnoted false = refl

noted : (b : Bool) → true ≡ (b || true)
noted true = refl
noted false = refl

measure_at-Entry :
    (i score : ℕ) (o : Option ℕ) (m : Measurements)
    → i < length m.0
    → i < length m.1
    → Entry i (is_at i o) score m (measure_at score o m)
unfolding Entry measure_at
measure_at-Entry i score none (best, measured) h h' =
    (refl, refl, refl, unnoted (get_or measured i false))
measure_at-Entry i score (some j) (best, measured) h h' =
    let v = max (get_or best j 0) score in
    elim (Bool-cases (i == j)) [
      | inl here ↦
          let same : i ≡ j = (==_iff i j).0 here in
          rw here (
            length-set best j v,
            length-set measured j true,
            subst (λ k. get_or (set best j v) k 0 ≡ max (get_or best k 0) score) (sym same)
                (get_or-set_self best j v 0 (subst (λ k. k < length best) same h)),
            subst (λ k. get_or (set measured j true) k false ≡ (get_or measured k false || true))
                (sym same)
                (get_or-set_self measured j true false (subst (λ k. k < length measured) same h')
                  ∙ noted (get_or measured j false)),
          )
      | inr other ↦
          let ne : j ≢ i = λ e. absurd (ground arith) in
          rw other (
            length-set best j v,
            length-set measured j true,
            get_or-set_ne best j i v 0 ne,
            get_or-set_ne measured j i true false ne ∙ unnoted (get_or measured i false),
          )
    ]

is_at-found : (i : ℕ) (o : Option ℕ) → is_at i o ≡ found_at i o
is_at-found i none = refl
is_at-found i (some j) = refl

measure_addr-Entry :
    (candidates : List IpAddr) (i score : ℕ) (c : IpAddr) (o : Option IpAddr) (m : Measurements)
    → ListedAt candidates i c
    → i < length m.0
    → i < length m.1
    → Entry i (reports c o) score m (measure_addr candidates score o m)
unfolding measure_addr ListedAt
measure_addr-Entry candidates i score c none m listed h h' =
    unfold Entry in (refl, refl, refl, unnoted (get_or m.1 i false))
measure_addr-Entry candidates i score c (some addr) m (at, first) h h' =
    let o = ip_position candidates 0 addr in
    let same : is_at i o ≡ ip_eq c addr =
      is_at-found i o
      ∙ ap (λ (n : ℕ). found_at n o) {x = i} {y = 0 + i} (omega arith)
      ∙ position_listed candidates i 0 c addr at first in
    subst (λ b. Entry i b score m (measure_at score o m)) same (measure_at-Entry i score o m h h')

best_step :
    (here : Bool) (b score : ℕ) (rest : List ℕ)
    → max (if here then max b score else b) (greatest rest)
      ≡ max b (greatest (score_if here score rest))
unfolding greatest
best_step true b score rest = omega arith
best_step false b score rest = refl

flag_step :
    (here m : Bool) (score : ℕ) (rest : List ℕ)
    → ((m || here) || is_some_score rest) ≡ (m || is_some_score (score_if here score rest))
flag_step true true score rest = refl
flag_step true false score rest = refl
flag_step false true score rest = refl
flag_step false false score rest = refl

measure_scores :
    (candidates : List IpAddr) (i : ℕ) (c : IpAddr) (samples : List (Option ScoreSample))
    (m : Measurements)
    → ListedAt candidates i c
    → i < length m.0
    → i < length m.1
    → let m' = measure candidates samples m in
      (get_or m'.0 i 0 ≡ max (get_or m.0 i 0) (greatest (scores_of c samples)))
      × (get_or m'.1 i false ≡ (get_or m.1 i false || is_some_score (scores_of c samples)))
unfolding measure scores_of Entry
measure_scores candidates i c [] m listed h h' =
    (unfold greatest in omega arith, unnoted (get_or m.1 i false))
measure_scores candidates i c (none ∷ samples) m listed h h' =
    measure_scores candidates i c samples m listed h h'
measure_scores candidates i c (some s ∷ samples) m listed h h' =
    let here = reports c s.addr in
    let (len, len', best, flag) = measure_addr-Entry candidates i s.score c s.addr m listed h h' in
    let rest = scores_of c samples in
    let t = measure_addr candidates s.score s.addr m in
    let (best', flag') =
      measure_scores candidates i c samples t listed (omega (arith, len)) (omega (arith, len')) in
    (
      best' ∙ ap (λ b. max b (greatest rest)) best ∙ best_step here (get_or m.0 i 0) s.score rest,
      flag'
          ∙ ap (λ b. b || is_some_score rest) flag
          ∙ flag_step here (get_or m.1 i false) s.score rest,
    )

get_or-replicate {ℓ} : {A : Type ℓ} (n i : ℕ) (a : A) → get_or (replicate n a) i a ≡ a
get_or-replicate zero i a = refl
get_or-replicate (suc n) zero a = refl
get_or-replicate (suc n) (suc i) a = get_or-replicate n i a

-- For a candidate, at the first index where it is listed: its entry in `best` is the greatest score of the
-- samples with its address, 0 where there is none, and its entry in `measured` tells whether there is one.
pub measurements_scores :
    (candidates : List IpAddr) (samples : List (Option ScoreSample)) (i : ℕ) (c : IpAddr)
    → ListedAt candidates i c
    → i < length candidates
    → let m = measurements candidates samples in
      (get_or m.0 i 0 ≡ greatest (scores_of c samples))
      × (get_or m.1 i false ≡ is_some_score (scores_of c samples))
measurements_scores candidates samples i c listed h =
    let n = length candidates in
    let (best, flag) =
      measure_scores candidates i c samples (replicate n 0, replicate n false) listed
        (rw (length-replicate {A = ℕ} n 0) h) (rw (length-replicate {A = Bool} n false) h) in
    (
      best ∙ (rw (get_or-replicate {A = ℕ} n i 0) (omega arith)),
      flag
          ∙ ap (λ b. b || is_some_score (scores_of c samples))
              (get_or-replicate {A = Bool} n i false),
    )
