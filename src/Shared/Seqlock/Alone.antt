-- ===== src/Shared/Seqlock/Alone.antt =====
-- shared.rs: what a call of `read_if_changed` returns when no write interrupts it, and when some do.
use nix_config.Common.{
  ℕ, zero, suc, ◌+◌, ◌*◌, ◌%◌, ◌^◌, ◌<◌, ◌≡◌, refl, ◌∙◌, sym, subst, List, [], ◌∷◌, ◌++◌,
  append-nil, append_assoc, Bool-cases, inl, inr, none, some, ◌==◌, ◌||◌, length, min, get_or, All,
}
use nix_config.Shared.Address.{IpAddr, to_ip, default_raw}
use nix_config.Shared.Upstream.{UpstreamSet}
use nix_config.Shared.Resolve.{SharedResolve, read_entries, read_set}
use nix_config.Shared.Seqlock.{
  Publication, Reader, idle, opened, addr_next, weight_next, workers_next, published_next, closing,
  returned, reader_step, read_alone, Turn, turns, StoresInOrder,
}
use nix_config.Shared.Seqlock.Writes.{Committed}
use nix_config.Shared.Seqlock.Untorn.{read-Whole}

abbrev pub entries : SharedResolve → List IpAddr × List ℕ
entries c = read_entries (min c.count 16) 0 c

-- What is read so far, and what is still to be read, make up the entries of the page.
unfoldable pub On : SharedResolve → Reader → Type 0
On c idle = Unit
On c (opened f) = Unit
On c (addr_next f left i got ws) =
    (got ++ (read_entries left i c).0 ≡ (entries c).0)
    × (ws ++ (read_entries left i c).1 ≡ (entries c).1)
On c (weight_next f left i got ws) =
    (got ++ (read_entries left (i + 1) c).0 ≡ (entries c).0)
    × (ws ++ (get_or c.weights i 0 ∷ (read_entries left (i + 1) c).1) ≡ (entries c).1)
On c (workers_next f got ws r) = (got ≡ (entries c).0) × (ws ≡ (entries c).1) × (r ≡ c.revision)
On c (published_next f got ws r w) =
    (got ≡ (entries c).0) × (ws ≡ (entries c).1) × (r ≡ c.revision) × (w ≡ c.workers)
On c (closing f s) = s ≡ read_set c
On c (returned none) = Unit
On c (returned (some s)) = s ≡ read_set c

pub step-On :
    (last_seq : ℕ) (c : SharedResolve) (r : Reader) → On c r → On c (reader_step last_seq c r)
unfolding On reader_step read_entries read_set
step-On last_seq c idle h = elim (Bool-cases ((c.seq == last_seq) || (c.seq % 2 == 1))) [
  | inl refused ↦ rw refused tt
  | inr ready ↦ rw ready tt
]
step-On last_seq c (opened f) h = (refl, refl)
step-On last_seq c (addr_next f zero i got ws) (hg, hw) =
    (sym (append-nil got) ∙ hg, sym (append-nil ws) ∙ hw, refl)
step-On last_seq c (addr_next f (suc left) i got ws) (hg, hw) = (
  append_assoc got (to_ip (get_or c.addrs i default_raw) ∷ []) (read_entries left (i + 1) c).0 ∙ hg,
  hw,
)
step-On last_seq c (weight_next f left i got ws) (hg, hw) =
    (hg, append_assoc ws (get_or c.weights i 0 ∷ []) (read_entries left (i + 1) c).1 ∙ hw)
step-On last_seq c (workers_next f got ws r) (hg, hw, hr) = (hg, hw, hr, refl)
step-On last_seq c (published_next f got ws r w) (hg, hw, hr, hk) = cc
step-On last_seq c (closing f s) h = elim (Bool-cases (f == c.seq)) [
  | inl same ↦ rw same h
  | inr changed ↦ rw changed tt
]
step-On last_seq c (returned none) h = h
step-On last_seq c (returned (some s)) h = h

alone-On : (n last_seq : ℕ) (c : SharedResolve) → On c (read_alone n last_seq c)
unfolding read_alone
alone-On zero last_seq c = unfold On in tt
alone-On (suc n) last_seq c = step-On last_seq c (read_alone n last_seq c) (alone-On n last_seq c)

alone-read_set :
    (n last_seq : ℕ) (c : SharedResolve) (s : UpstreamSet)
    → read_alone n last_seq c ≡ returned (some s)
    → s ≡ read_set c
unfolding On
alone-read_set n last_seq c s e = subst (On c) e (alone-On n last_seq c)

-- A call of `read_if_changed` that begins while the page is at rest, under a writer whose stores for any
-- number of publications, too few for the counter to wrap, interleave in any way with the loads of the call,
-- but take effect in the order of the program: a set that the call returns is the set of the page as it is
-- between two complete publications.
pub read_untorn :
    (p : SharedResolve) (pubs : List Publication) (last_seq : ℕ) (ts : List Turn)
    (set : UpstreamSet)
    → p.seq % 2 ≡ 0
    → p.seq + 2 * length pubs < 2 ^ 32
    → All StoresInOrder ts
    → (turns last_seq ts
        (record { page = p; writing = []; publications = pubs; reader = idle })).reader
      ≡ returned (some set)
    → (page : SharedResolve) × (rest : List Publication) × Committed p pubs page rest
      × (set ≡ read_set page)
read_untorn p pubs last_seq ts set even bound order e =
    let w = read-Whole p pubs last_seq ts set even bound order e in
    (w.page, w.rest, w.committed, alone-read_set w.steps last_seq w.page set w.alone)
