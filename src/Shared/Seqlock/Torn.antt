-- ===== src/Shared/Seqlock/Torn.antt =====
-- shared.rs: a store of `publish` that takes effect before the counter is odd.
use nix_config.Common.{
  ℕ, zero, suc, ◌+◌, ◌^◌, ◌%◌, ◌≡◌, ◌≢◌, refl, ◌∙◌, ap, sym, subst, List, [], ◌∷◌, ◌++◌, false,
  true, some, some-injective, none≢some, ◌==◌, ◌||◌, get_elem?, replicate, All, arith, min,
}
use nix_config.Shared.Address.{IpAddr}
use nix_config.Shared.Upstream.{UpstreamSet}
use nix_config.Shared.Resolve.{SharedResolve, read_set}
use nix_config.Shared.Seqlock.{
  Write, set_seq, apply_write, Publication, data_writes, publish_writes, Reader, idle, addr_next,
  opened, closing, returned, reader_step, System, Turn, writes, reads, next_store, store_one,
  writer_step, turn, turns,
}
use nix_config.Shared.Seqlock.Writes.{NoSeq, apply_write-seq, data_writes-NoSeq}
use nix_config.Shared.Seqlock.Alone.{On, step-On}

All-get_elem {ℓ κ} :
    {A : Type ℓ} (P : A → Type κ) (xs : List A) (i : ℕ) (x : A)
    → All P xs
    → get_elem? xs i ≡ some x
    → P x
All-get_elem P [] i x h e = absurd (none≢some e)
All-get_elem P (y ∷ ys) zero x (first, h) e = subst P (some-injective e) first
All-get_elem P (y ∷ ys) (suc i) x (first, h) e = All-get_elem P ys i x h e

next_store-later :
    (i : ℕ) (x v l : Write) (ws : List Write)
    → (next_store (suc i) x (v ∷ (ws ++ l ∷ []))).0 ≡ (next_store i v (ws ++ l ∷ [])).0
unfolding next_store
next_store-later i x v l [] = refl
next_store-later i x v l (w ∷ ws) = refl

-- Any of the stores before the last may be the next one.
next_store-any :
    (i : ℕ) (x l w : Write) (ws : List Write)
    → get_elem? ws i ≡ some w
    → (next_store (suc i) x (ws ++ l ∷ [])).0 ≡ w
next_store-any i x l w [] e = absurd (none≢some e)
next_store-any zero x l w (v ∷ ws) e =
    next_store-later zero x v l ws ∙ (unfold next_store in some-injective e)
next_store-any (suc i) x l w (v ∷ ws) e =
    next_store-later (suc i) x v l ws ∙ next_store-any i v l w ws e

-- So many loads on a page that stays.
loads : ℕ → ℕ → SharedResolve → Reader → Reader
loads zero last_seq p r = r
loads (suc n) last_seq p r = loads n last_seq p (reader_step last_seq p r)

turns-loads :
    (n last_seq : ℕ) (s : System)
    → (turns last_seq (replicate n reads) s).reader ≡ loads n last_seq s.page s.reader
unfolding turns turn loads
turns-loads zero last_seq s = refl
turns-loads (suc n) last_seq s =
    turns-loads n last_seq (record s { reader = reader_step last_seq s.page s.reader })

loads-On : (n last_seq : ℕ) (p : SharedResolve) (r : Reader) → On p r → On p (loads n last_seq p r)
unfolding loads
loads-On zero last_seq p r h = h
loads-On (suc n) last_seq p r h =
    loads-On n last_seq p (reader_step last_seq p r) (step-On last_seq p r h)

abbrev Returns : ℕ → SharedResolve → Reader → Type 0
Returns last_seq p r = (n : ℕ) × (s : UpstreamSet) × (loads n last_seq p r ≡ returned (some s))

closed :
    (last_seq : ℕ) (p : SharedResolve) (s : UpstreamSet)
    → reader_step last_seq p (closing p.seq s) ≡ returned (some s)
unfolding reader_step
closed last_seq p s = let same : (p.seq == p.seq) ≡ true = ground arith in rw same refl

opens :
    (last_seq : ℕ) (p : SharedResolve)
    → p.seq % 2 ≡ 0
    → p.seq ≢ last_seq
    → reader_step last_seq p idle ≡ opened p.seq
unfolding reader_step
opens last_seq p even unseen =
    let ready : ((p.seq == last_seq) || (p.seq % 2 == 1)) ≡ false = ground (arith, unseen) in
    rw ready refl

addr_next-Returns :
    (last_seq left i : ℕ) (got : List IpAddr) (ws : List ℕ) (p : SharedResolve)
    → Returns last_seq p (addr_next p.seq left i got ws)
unfolding loads reader_step
addr_next-Returns last_seq zero i got ws p = (4, _, closed last_seq p _)
addr_next-Returns last_seq (suc left) i got ws p =
    let (n, s, e) = addr_next-Returns last_seq left (i + 1) _ _ p in (suc (suc n), s, e)

idle-Returns :
    (last_seq : ℕ) (p : SharedResolve) → p.seq % 2 ≡ 0 → p.seq ≢ last_seq → Returns last_seq p idle
idle-Returns last_seq p even unseen =
    let (n, s, e) = addr_next-Returns last_seq (min p.count 16) 0 [] [] p in
    (
      suc (suc n),
      s,
      unfold loads in
          ap (loads (suc n) last_seq p) (opens last_seq p even unseen) ∙ (unfold reader_step in e),
    )

loads-read_set :
    (n last_seq : ℕ) (p : SharedResolve) (s : UpstreamSet)
    → loads n last_seq p idle ≡ returned (some s)
    → s ≡ read_set p
loads-read_set n last_seq p s e =
    unfold On in subst (On p) e (loads-On n last_seq p idle (unfold On in tt))

-- On a page at rest that the reader has not seen, each store of a publication but those of the counter may
-- take effect first, before the one that makes the counter odd: a call of `read_if_changed` that comes then
-- returns the set of a page with that store alone.
pub read_torn :
    (p : SharedResolve) (pub' : Publication) (rest : List Publication) (last_seq i : ℕ) (w : Write)
    → p.seq % 2 ≡ 0
    → p.seq ≢ last_seq
    → get_elem? (data_writes p pub') i ≡ some w
    → (ts : List Turn) × ((turns last_seq ts
          (record { page = p; writing = []; publications = pub' ∷ rest; reader = idle })).reader
        ≡ returned (some (read_set (apply_write w p))))
read_torn p pub' rest last_seq i w even unseen e =
    let q = apply_write w p in
    let same : q.seq ≡ p.seq =
      apply_write-seq w p
        (All-get_elem NoSeq (data_writes p pub') i w (data_writes-NoSeq p pub') e) in
    let (n, s, returns) =
      idle-Returns last_seq q (ap (λ (t : ℕ). t % 2) same ∙ even)
        (λ seen. unseen (sym same ∙ seen)) in
    (
      writes 0 ∷ writes (suc i) ∷ replicate n reads,
      stored n ∙ returns ∙ ap (λ t. returned (some t)) (loads-read_set n last_seq q s returns),
    )
  where
    stored :
        (n : ℕ)
        → (turns last_seq
            (writes 0 ∷ writes (suc i) ∷ replicate n reads)
            (record { page = p; writing = []; publications = pub' ∷ rest; reader = idle })).reader
          ≡ loads n last_seq (apply_write w p) idle
    stored n =
        unfold turns turn writer_step store_one publish_writes in
        turns-loads n last_seq _
        ∙ ap (λ x. loads n last_seq (apply_write x p) idle)
            (next_store-any i (set_seq ((p.seq + 1) % 2 ^ 32)) (set_seq ((p.seq + 2) % 2 ^ 32)) w
              (data_writes p pub') e)
