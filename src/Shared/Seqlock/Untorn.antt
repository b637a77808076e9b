-- ===== src/Shared/Seqlock/Untorn.antt =====
-- shared.rs: what a reader has loaded against what the writer has stored.
use nix_config.Common.{
  ℕ, zero, suc, ◌+◌, ◌*◌, ◌%◌, ◌^◌, ◌≤◌, ◌<◌, ◌≡◌, refl, ◌∙◌, ap, sym, subst, List, [], ◌∷◌, ◌++◌,
  true, false, Bool-cases, inl, inr, ◌⊎◌, none, some, ◌==◌, ◌||◌, length, All, arith,
}
use nix_config.Shared.Upstream.{UpstreamSet}
use nix_config.Shared.Resolve.{SharedResolve}
use nix_config.Shared.Seqlock.{
  Write, set_seq, apply_write, apply_all, Publication, data_writes, publish_writes, Reader, idle,
  opened, addr_next, weight_next, workers_next, published_next, closing, returned, reader_step,
  read_alone, System, Turn, writes, reads, next_store, store_one, StoresInOrder, writer_step, turn,
  turns,
}
use nix_config.Shared.Seqlock.Writes.{
  Committed, started, published, NoSeq, apply_write-seq, data_writes-NoSeq,
}

module _ (p0 : SharedResolve) (pubs : List Publication) (last_seq : ℕ) where
  -- What a call that no write interrupts returns on a page at rest.
  pub record Whole (s : UpstreamSet) : Type 0 where
    pub page : SharedResolve
    pub rest : List Publication
    pub committed : Committed p0 pubs page rest
    pub steps : ℕ
    pub alone : read_alone steps last_seq page ≡ returned (some s)

  -- The first load was of a smaller counter than `limit`, or there was none, or the call has returned.
  Behind : ℕ → Reader → Type 0
  Behind limit idle = Unit
  Behind limit (opened f) = f < limit
  Behind limit (addr_next f left i got ws) = f < limit
  Behind limit (weight_next f left i got ws) = f < limit
  Behind limit (workers_next f got ws r) = f < limit
  Behind limit (published_next f got ws r w) = f < limit
  Behind limit (closing f s) = f < limit
  Behind limit (returned none) = Unit
  Behind limit (returned (some s)) = Whole s

  -- The reader has done what it does alone on the page.
  AloneOn : SharedResolve → Reader → Type 0
  AloneOn c r = (n : ℕ) × (read_alone n last_seq c ≡ r)

  Behind-later : (a b : ℕ) (r : Reader) → a ≤ b → Behind a r → Behind b r
  unfolding Behind
  Behind-later a b idle le h = tt
  Behind-later a b (opened f) le h = omega arith
  Behind-later a b (addr_next f left i got ws) le h = omega arith
  Behind-later a b (weight_next f left i got ws) le h = omega arith
  Behind-later a b (workers_next f got ws r) le h = omega arith
  Behind-later a b (published_next f got ws r w) le h = omega arith
  Behind-later a b (closing f s) le h = omega arith
  Behind-later a b (returned none) le h = tt
  Behind-later a b (returned (some s)) le h = h

  -- While the counter is odd, and where the first load is behind, a step leaves the reader behind.
  Behind-step :
      (p : SharedResolve) (r : Reader)
      → p.seq % 2 ≡ 1
      → Behind p.seq r
      → Behind p.seq (reader_step last_seq p r)
  unfolding Behind reader_step
  Behind-step p idle odd h =
      let refused : ((p.seq == last_seq) || (p.seq % 2 == 1)) ≡ true = ground arith in rw refused tt
  Behind-step p (opened f) odd h = h
  Behind-step p (addr_next f zero i got ws) odd h = h
  Behind-step p (addr_next f (suc left) i got ws) odd h = h
  Behind-step p (weight_next f left i got ws) odd h = h
  Behind-step p (workers_next f got ws r) odd h = h
  Behind-step p (published_next f got ws r w) odd h = h
  Behind-step p (closing f s) odd h =
      let changed : (f == p.seq) ≡ false = ground arith in rw changed tt
  Behind-step p (returned none) odd h = h
  Behind-step p (returned (some s)) odd h = h

  -- At rest, a step leaves the reader behind, or on its way alone on the page.
  resting-step :
      (c : SharedResolve) (rest : List Publication) (r : Reader)
      → Committed p0 pubs c rest
      → Behind c.seq r ⊎ AloneOn c r
      → Behind c.seq (reader_step last_seq c r) ⊎ AloneOn c (reader_step last_seq c r)
  unfolding Behind reader_step AloneOn
  resting-step c rest idle k h = inr (1, unfold read_alone in refl)
  resting-step c rest (opened f) k (inl h) = inl h
  resting-step c rest (addr_next f zero i got ws) k (inl h) = inl h
  resting-step c rest (addr_next f (suc left) i got ws) k (inl h) = inl h
  resting-step c rest (weight_next f left i got ws) k (inl h) = inl h
  resting-step c rest (workers_next f got ws r) k (inl h) = inl h
  resting-step c rest (published_next f got ws r w) k (inl h) = inl h
  resting-step c rest (closing f s) k (inl h) =
      let changed : (f == c.seq) ≡ false = ground arith in inl (rw changed tt)
  resting-step c rest (returned none) k (inl h) = inl h
  resting-step c rest (returned (some s)) k (inl h) = inl h
  resting-step c rest r k (inr (n, e)) =
      inr (suc n, unfold read_alone in ap (reader_step last_seq c) e)

  alone-step :
      (c : SharedResolve) (rest : List Publication) (n : ℕ) (r : Reader)
      → Committed p0 pubs c rest
      → read_alone n last_seq c ≡ r
      → Behind (c.seq + 1) r
      → Behind (c.seq + 1) (reader_step last_seq c r)
  unfolding Behind reader_step read_alone
  alone-step c rest n idle k e h = elim (Bool-cases ((c.seq == last_seq) || (c.seq % 2 == 1))) [
    | inl refused ↦ rw refused tt
    | inr ready ↦ rw ready (omega arith)
  ]
  alone-step c rest n (opened f) k e h = h
  alone-step c rest n (addr_next f zero i got ws) k e h = h
  alone-step c rest n (addr_next f (suc left) i got ws) k e h = h
  alone-step c rest n (weight_next f left i got ws) k e h = h
  alone-step c rest n (workers_next f got ws r) k e h = h
  alone-step c rest n (published_next f got ws r w) k e h = h
  alone-step c rest n (closing f s) k e h = elim (Bool-cases (f == c.seq)) [
    | inr changed ↦ rw changed tt
    | inl same ↦ rw same (record {
      page = c;
      rest = rest;
      committed = k;
      steps = suc n;
      alone = rw (e, reader_step, same) refl;
    })
  ]
  alone-step c rest n (returned none) k e h = h
  alone-step c rest n (returned (some s)) k e h = h

  alone-Behind :
      (c : SharedResolve) (rest : List Publication) (n : ℕ)
      → Committed p0 pubs c rest
      → Behind (c.seq + 1) (read_alone n last_seq c)
  unfolding read_alone
  alone-Behind c rest zero k = unfold Behind in tt
  alone-Behind c rest (suc n) k =
      alone-step c rest n (read_alone n last_seq c) k refl (alone-Behind c rest n k)

  moved-Behind :
      (c : SharedResolve) (rest : List Publication) (r : Reader)
      → Committed p0 pubs c rest
      → Behind c.seq r ⊎ AloneOn c r
      → Behind (c.seq + 1) r
  unfolding AloneOn
  moved-Behind c rest r k (inl h) = Behind-later c.seq (c.seq + 1) r (omega arith) h
  moved-Behind c rest r k (inr (n, e)) = subst (Behind (c.seq + 1)) e (alone-Behind c rest n k)

  data Inv : SharedResolve → List Write → List Publication → Reader → Type 0 where
    resting :
        {c : SharedResolve} {rest : List Publication} {r : Reader}
        → Committed p0 pubs c rest
        → Behind c.seq r ⊎ AloneOn c r
        → Inv c [] rest r
    begun :
        {c : SharedResolve} {rest : List Publication} {r : Reader} (pub' : Publication)
        → Committed p0 pubs c (pub' ∷ rest)
        → Behind c.seq r ⊎ AloneOn c r
        → Inv c (publish_writes c pub') rest r
    within :
        {page : SharedResolve} {rest : List Publication} {r : Reader} (c : SharedResolve)
        (pub' : Publication) (ds : List Write) (v : ℕ)
        → Committed p0 pubs c (pub' ∷ rest)
        → All NoSeq ds
        → apply_all (ds ++ set_seq v ∷ []) page ≡ apply_all (publish_writes c pub') c
        → page.seq ≡ c.seq + 1
        → v ≡ c.seq + 2
        → Behind page.seq r
        → Inv page (ds ++ set_seq v ∷ []) rest r

  apply_all-seq :
      (ds : List Write) (v : ℕ) (p : SharedResolve) → (apply_all (ds ++ set_seq v ∷ []) p).seq ≡ v
  unfolding apply_all apply_write
  apply_all-seq [] v p = refl
  apply_all-seq (d ∷ ds) v p = apply_all-seq ds v (apply_write d p)

  publish-seq :
      (p : SharedResolve) (pub' : Publication)
      → (apply_all (publish_writes p pub') p).seq ≡ (p.seq + 2) % 2 ^ 32
  unfolding publish_writes apply_all
  publish-seq p pub' = apply_all-seq (data_writes p pub') ((p.seq + 2) % 2 ^ 32) _

  module _ (even : p0.seq % 2 ≡ 0) (bound : p0.seq + 2 * length pubs < 2 ^ 32) where
    Committed-bound :
        {c : SharedResolve} {rest : List Publication}
        → Committed p0 pubs c rest
        → (c.seq % 2 ≡ 0) × (c.seq + 2 * length rest < 2 ^ 32)
    Committed-bound started = (even, bound)
    Committed-bound (published {q} {pub'} {rest} k) =
        let before = Committed-bound k in
        (omega (arith, before, publish-seq q pub'), omega (arith, before, publish-seq q pub'))

    write-Inv :
        (page : SharedResolve) (ws : List Write) (rest : List Publication) (r : Reader)
        → Inv page ws rest r
        → let s =
            writer_step 0 ws rest
              (record { page = page; writing = ws; publications = rest; reader = r }) in
          Inv s.page s.writing s.publications s.reader
    unfolding writer_step next_store store_one publish_writes apply_write apply_all
    write-Inv page _ [] r (resting k h) = resting k h
    write-Inv page _ (pub' ∷ rest) r (resting k h) = begun pub' k h
    write-Inv page _ rest r (begun pub' k h) =
        let (odd, small) = Committed-bound k in
        within page pub' (data_writes page pub') ((page.seq + 2) % 2 ^ 32) k
          (data_writes-NoSeq page pub') refl (omega arith) (omega arith)
          (subst (λ (t : ℕ). Behind t r) (omega arith) (moved-Behind page (pub' ∷ rest) r k h))
    write-Inv page _ rest r (within c pub' [] v k none_seq end seq next h) =
        resting (subst (λ t. Committed p0 pubs t rest) (sym end) (published k))
          (inl (Behind-later page.seq v r (omega arith) h))
    write-Inv page _ rest r (within c pub' (d ∷ ds) v k (not_seq, none_seq) end seq next h) =
        let same = apply_write-seq d page not_seq in
        within c pub' ds v k none_seq end (same ∙ seq) next (subst (λ t. Behind t r) (sym same) h)

    read-Inv :
        (page : SharedResolve) (ws : List Write) (rest : List Publication) (r : Reader)
        → Inv page ws rest r
        → Inv page ws rest (reader_step last_seq page r)
    read-Inv page _ rest r (resting k h) = resting k (resting-step page rest r k h)
    read-Inv page _ rest r (begun pub' k h) = begun pub' k (resting-step page (pub' ∷ rest) r k h)
    read-Inv page _ rest r (within c pub' ds v k none_seq end seq next h) =
        within c pub' ds v k none_seq end seq next
          (Behind-step page r (omega (arith, Committed-bound k)) h)

    turns-Inv :
        (ts : List Turn) (s : System)
        → Inv s.page s.writing s.publications s.reader
        → All StoresInOrder ts
        → let t = turns last_seq ts s in Inv t.page t.writing t.publications t.reader
    unfolding turns turn
    turns-Inv [] s i o = i
    turns-Inv (writes zero ∷ ts) s i (first, o) =
        turns-Inv ts (writer_step 0 s.writing s.publications s)
          (write-Inv s.page s.writing s.publications s.reader i) o
    turns-Inv (writes (suc n) ∷ ts) s i (first, o) = absurd first
    turns-Inv (reads ∷ ts) s i (first, o) =
        turns-Inv ts (record s { reader = reader_step last_seq s.page s.reader })
          (read-Inv s.page s.writing s.publications s.reader i) o

  Behind-Whole :
      (limit : ℕ) (r : Reader) (s : UpstreamSet) → Behind limit r → r ≡ returned (some s) → Whole s
  unfolding Behind
  Behind-Whole limit r s h e = subst (Behind limit) e h

  at_rest-Whole :
      (c : SharedResolve) (rest : List Publication) (r : Reader) (s : UpstreamSet)
      → Committed p0 pubs c rest
      → Behind c.seq r ⊎ AloneOn c r
      → r ≡ returned (some s)
      → Whole s
  unfolding AloneOn
  at_rest-Whole c rest r s k (inl h) e = Behind-Whole c.seq r s h e
  at_rest-Whole c rest r s k (inr (n, alone)) e = record {
    page = c;
    rest = rest;
    committed = k;
    steps = n;
    alone = alone ∙ e;
  }

  returned-Whole :
      {page : SharedResolve} {ws : List Write} {rest : List Publication} (r : Reader)
      (s : UpstreamSet)
      → Inv page ws rest r
      → r ≡ returned (some s)
      → Whole s
  returned-Whole r s (resting {c = c} {rest = rest} k h) e = at_rest-Whole c rest r s k h e
  returned-Whole r s (begun {c = c} {rest = rest} pub' k h) e =
      at_rest-Whole c (pub' ∷ rest) r s k h e
  returned-Whole r s (within {page = page} c pub' ds v k none_seq end seq next h) e =
      Behind-Whole page.seq r s h e

  Behind-idle : Behind p0.seq idle
  unfolding Behind
  Behind-idle = tt

  -- Under a writer whose stores take effect in program order, a set that a call returns is one that a call
  -- alone returns on the page as it is between two publications.
  pub read-Whole :
      (ts : List Turn) (set : UpstreamSet)
      → p0.seq % 2 ≡ 0
      → p0.seq + 2 * length pubs < 2 ^ 32
      → All StoresInOrder ts
      → (turns last_seq ts
          (record { page = p0; writing = []; publications = pubs; reader = idle })).reader
        ≡ returned (some set)
      → Whole set
  read-Whole ts set even bound order e =
      returned-Whole _ set
        (turns-Inv even bound ts
          (record { page = p0; writing = []; publications = pubs; reader = idle })
          (resting started (inl Behind-idle)) order)
        e
