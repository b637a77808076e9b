-- ===== src/Shared/Seqlock/Writes.antt =====
-- shared.rs: the stores of `publish`, of which the first and the last alone touch the counter.
use nix_config.Common.{
  ℕ, zero, suc, ◌+◌, ◌-◌, ◌≡◌, refl, List, [], ◌∷◌, length, All, All-append, take, min,
}
use nix_config.Shared.Address.{IpAddr}
use nix_config.Shared.Resolve.{SharedResolve}
use nix_config.Shared.Seqlock.{
  Write, set_seq, set_count, set_revision, set_workers, set_published, set_expires, set_addr,
  set_weight, apply_write, apply_all, Publication, entry_writes, clear_writes, data_writes,
  publish_writes,
}

-- The pages at rest: the first one, and each after one more complete publication, with those to come.
pub data Committed (p : SharedResolve) (pubs : List Publication)
    : SharedResolve → List Publication → Type 0 where
  started : Committed p pubs p pubs
  published :
      {q : SharedResolve} {pub' : Publication} {rest : List Publication}
      → Committed p pubs q (pub' ∷ rest)
      → Committed p pubs (apply_all (publish_writes q pub') q) rest

abbrev pub NoSeq : Write → Type 0
NoSeq (set_seq v) = ⊥
NoSeq (set_count v) = Unit
NoSeq (set_revision v) = Unit
NoSeq (set_workers v) = Unit
NoSeq (set_published v) = Unit
NoSeq (set_expires v) = Unit
NoSeq (set_addr i raw) = Unit
NoSeq (set_weight i v) = Unit

pub apply_write-seq : (w : Write) (p : SharedResolve) → NoSeq w → (apply_write w p).seq ≡ p.seq
unfolding apply_write
apply_write-seq (set_seq v) p h = absurd h
apply_write-seq (set_count v) p h = refl
apply_write-seq (set_revision v) p h = refl
apply_write-seq (set_workers v) p h = refl
apply_write-seq (set_published v) p h = refl
apply_write-seq (set_expires v) p h = refl
apply_write-seq (set_addr i raw) p h = refl
apply_write-seq (set_weight i v) p h = refl

entry_writes-NoSeq :
    (addrs : List IpAddr) (given : List ℕ) (i : ℕ) → All NoSeq (entry_writes addrs given i)
unfolding entry_writes
entry_writes-NoSeq [] given i = tt
entry_writes-NoSeq (a ∷ addrs) given i = (tt, (tt, entry_writes-NoSeq addrs given (i + 1)))

clear_writes-NoSeq : (left i : ℕ) → All NoSeq (clear_writes left i)
unfolding clear_writes
clear_writes-NoSeq zero i = tt
clear_writes-NoSeq (suc left) i = (tt, clear_writes-NoSeq left (i + 1))

pub data_writes-NoSeq : (p : SharedResolve) (pub' : Publication) → All NoSeq (data_writes p pub')
unfolding data_writes
data_writes-NoSeq p pub' =
    let n = min (length pub'.given_addrs) 16 in
    (
      tt,
      (
        tt,
        (
          tt,
          All-append NoSeq (entry_writes (take n pub'.given_addrs) pub'.given_weights 0) _
              (entry_writes-NoSeq (take n pub'.given_addrs) pub'.given_weights 0)
              (All-append NoSeq (clear_writes (16 - n) n) _ (clear_writes-NoSeq (16 - n) n)
                (tt, (tt, tt))),
        ),
      ),
    )
