-- ===== src/Supervisor/Publication.antt =====
-- main.rs: the weights of a round, published where they have changed, and read by a worker.
use nix_config.Common.{
  length-sort_by, ℕ, suc, ◌+◌, ◌*◌, ◌%◌, ◌^◌, ◌≤◌, ◌≡◌, ◌≢◌, inl, inr, refl, sym, ap, ◌∙◌, subst,
  List, [], ◌∷◌, map, Bool, true, false, ◌&&◌, Option, some, Bool-cases, if◌then◌else◌, leb, ◌==◌,
  length, arith,
}
use nix_config.Shared.Address.{IpAddr}
use nix_config.Shared.Upstream.{ip_eq}
use nix_config.Shared.Upstream.Equal.{ip_eq_refl}
use nix_config.Shared.Scores.{ScoreSample}
use nix_config.Shared.Resolve.{SharedResolve, publish, read_if_changed}
use nix_config.Shared.Resolve.Published.{read-publish}
use nix_config.Worker.Migration.{second}
use nix_config.Supervisor.Weights.{compute_weights, fresh_sample, heavier, weigh_all, weigh_each}
use nix_config.Supervisor.Weights.Shares.{addr_of, weight_in}

abbrev pub weight_interval : ℕ
weight_interval = 2 * second

-- `next_weights`, `published` and the resolve page.
pub record Publication : Type 0 where
  pub next_weights : ℕ
  pub published : List (IpAddr × ℕ)
  pub page : SharedResolve

unfoldable pub same_weights : List (IpAddr × ℕ) → List (IpAddr × ℕ) → Bool
same_weights [] [] = true
same_weights [] (q ∷ qs) = false
same_weights (p ∷ ps) [] = false
same_weights ((a, v) ∷ ps) ((b, w) ∷ qs) = ip_eq a b && (v == w) && same_weights ps qs

-- What the scores page gives for each worker, stale samples left out.
unfoldable pub fresh_samples : ℕ → List (Option ScoreSample) → List (Option ScoreSample)
fresh_samples now_secs [] = []
fresh_samples now_secs (s ∷ samples) = fresh_sample now_secs s ∷ fresh_samples now_secs samples

-- `publish` reads the clock twice, and is given a time to live of 60 seconds.
unfoldable pub publish_fresh : List (IpAddr × ℕ) → ℕ → ℕ → ℕ → Publication → Publication
publish_fresh fresh workers secs later s = if same_weights fresh s.published then s else record s {
  published = fresh;
  page = publish (map addr_of fresh) (map weight_in fresh) workers secs later 60 s.page;
}

unfoldable pub weights_round :
    List IpAddr → List (Option ScoreSample) → ℕ → ℕ → ℕ → ℕ → Publication → Publication
weights_round candidates samples workers now secs later s =
    let fresh = compute_weights candidates (fresh_samples secs samples) workers in
    if leb s.next_weights now
    then publish_fresh fresh workers secs later (record s { next_weights = now + weight_interval })
    else s

same_weights_refl : (l : List (IpAddr × ℕ)) → same_weights l l ≡ true
unfolding same_weights
same_weights_refl [] = refl
same_weights_refl ((a, w) ∷ l) =
    let own = ip_eq_refl a in
    let same : (w == w) ≡ true = ground arith in rw (own, same, same_weights_refl l) refl

weigh_each-length :
    (floor one_slot : ℕ) (probe : Option ℕ) (i : ℕ) (best : List ℕ) (addrs : List IpAddr)
    → length (weigh_each floor one_slot probe i best addrs) ≡ length addrs
unfolding weigh_each
weigh_each-length floor one_slot probe i best [] = refl
weigh_each-length floor one_slot probe i best (a ∷ addrs) =
    ap suc (weigh_each-length floor one_slot probe (i + 1) best addrs)

compute_weights-length :
    (candidates : List IpAddr) (samples : List (Option ScoreSample)) (workers : ℕ)
    → length (compute_weights candidates samples workers) ≡ length candidates
unfolding compute_weights weigh_all
compute_weights-length candidates samples workers =
    length-sort_by heavier _ ∙ weigh_each-length _ _ _ 0 _ candidates

length-map {ℓ κ} : {A : Type ℓ} {B : Type κ} (f : A → B) (l : List A) → length (map f l) ≡ length l
length-map f [] = refl
length-map f (x ∷ l) = ap suc (length-map f l)

-- A round whose weights are those published leaves the page.
quiet_round :
    (candidates : List IpAddr) (samples : List (Option ScoreSample)) (workers now secs later : ℕ)
    (s : Publication)
    → s.published ≡ compute_weights candidates (fresh_samples secs samples) workers
    → (weights_round candidates samples workers now secs later s).page ≡ s.page
unfolding weights_round publish_fresh
quiet_round candidates samples workers now secs later s e =
    let fresh = compute_weights candidates (fresh_samples secs samples) workers in
    let same : same_weights fresh s.published ≡ true =
      subst (λ l. same_weights fresh l ≡ true) (sym e) (same_weights_refl fresh) in
    elim (Bool-cases (leb s.next_weights now)) [
      | inl due ↦ rw (weights_round, due, publish_fresh, same) refl
      | inr early ↦ rw (weights_round, early) refl
    ]

changed_round :
    (candidates : List IpAddr) (samples : List (Option ScoreSample)) (workers now secs later : ℕ)
    (s : Publication)
    → let fresh = compute_weights candidates (fresh_samples secs samples) workers in
      s.next_weights ≤ now
      → same_weights fresh s.published ≡ false
      → weights_round candidates samples workers now secs later s ≡ (record {
        next_weights = now + weight_interval;
        published = fresh;
        page = publish (map addr_of fresh) (map weight_in fresh) workers secs later 60 s.page;
      })
unfolding weights_round publish_fresh
changed_round candidates samples workers now secs later s due changed =
    let due' : leb s.next_weights now ≡ true = ground arith in
    rw (weights_round, due', publish_fresh, changed) refl

-- A round in which the weights are due and have changed, over at most sixteen candidates and a page at
-- rest: a worker that has not seen the new sequence number reads the new weights from the page, each with
-- its address, and the number of workers; another such round over the same samples, the weights due again,
-- leaves the page as it is.
pub weights_round-read :
    (candidates : List IpAddr) (samples : List (Option ScoreSample))
    (workers now secs later again last_seq : ℕ) (s : Publication)
    → let fresh = compute_weights candidates (fresh_samples secs samples) workers in
      length candidates ≤ 16
      → length s.page.addrs ≡ 16
      → length s.page.weights ≡ 16
      → s.page.seq % 2 ≡ 0
      → last_seq ≢ (s.page.seq + 2) % 2 ^ 32
      → s.next_weights ≤ now
      → same_weights fresh s.published ≡ false
      → let s' = weights_round candidates samples workers now secs later s in
        (read_if_changed last_seq s'.page s'.page.seq ≡ (
          s'.page.seq,
          some (record {
            addrs = map addr_of fresh;
            weights = map weight_in fresh;
            revision = (s.page.revision + 1) % 2 ^ 32;
            workers = workers % 2 ^ 32;
            published_mono_secs = secs;
          }),
        ))
        × ((weights_round candidates samples workers again secs later s').page ≡ s'.page)
weights_round-read candidates samples workers now secs later again last_seq s few raws weights even
      unseen due changed =
    let fresh = compute_weights candidates (fresh_samples secs samples) workers in
    let count : length fresh ≡ length candidates =
      compute_weights-length candidates (fresh_samples secs samples) workers in
    let addrs : length (map addr_of fresh) ≡ length fresh = length-map addr_of fresh in
    let both : length (map weight_in fresh) ≡ length fresh = length-map weight_in fresh in
    let round = changed_round candidates samples workers now secs later s due changed in
    let read =
      read-publish (map addr_of fresh) (map weight_in fresh) workers secs later 60 s.page last_seq
        raws weights (omega (arith, addrs, count)) (both ∙ sym addrs) even unseen in
    let quiet =
      quiet_round candidates samples workers again secs later
        (weights_round candidates samples workers now secs later s)
        (ap (λ (t : Publication). t.published) round) in
    (
      subst
          (λ (t : Publication). read_if_changed last_seq t.page t.page.seq ≡ (
            t.page.seq,
            some (record {
              addrs = map addr_of fresh;
              weights = map weight_in fresh;
              revision = (s.page.revision + 1) % 2 ^ 32;
              workers = workers % 2 ^ 32;
              published_mono_secs = secs;
            }),
          ))
          (sym round) read.0,
      quiet,
    )
