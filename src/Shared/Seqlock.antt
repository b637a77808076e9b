-- ===== src/Shared/Seqlock.antt =====
-- shared.rs: the resolve page under one writer and one reader whose accesses interleave. A step is one
-- store or load of a field of the page; an address is one field. The loads of the reader, which has a fence
-- before them and one behind, take effect in program order. The stores of a publication take effect in any
-- order, but for the last, which a fence holds back: no fence stands behind the first. A publication begins
-- when the stores of the one before have taken effect.
use nix_config.Common.{
  ℕ, zero, suc, ◌+◌, ◌-◌, ◌%◌, ◌^◌, List, [], ◌∷◌, ◌++◌, Bool, true, false, Option, none, some,
  if◌then◌else◌, ◌==◌, ◌||◌, length, take, get_or, set, min,
}
use nix_config.Shared.Address.{IpAddr, RawAddr, default_raw, from_ip, to_ip, max_addrs}
use nix_config.Shared.Upstream.{UpstreamSet}
use nix_config.Shared.Resolve.{SharedResolve}
pub mod Writes
pub mod Untorn
pub mod Alone
pub mod Torn

pub data Write : Type 0 where
  set_seq set_count set_revision set_workers set_published set_expires : ℕ → Write
  set_addr : ℕ → RawAddr → Write
  set_weight : ℕ → ℕ → Write

unfoldable pub apply_write : Write → SharedResolve → SharedResolve
apply_write (set_seq v) p = record p { seq = v }
apply_write (set_count v) p = record p { count = v }
apply_write (set_revision v) p = record p { revision = v }
apply_write (set_workers v) p = record p { workers = v }
apply_write (set_published v) p = record p { published_mono_secs = v }
apply_write (set_expires v) p = record p { expires_mono_secs = v }
apply_write (set_addr i raw) p = record p { addrs = set p.addrs i raw }
apply_write (set_weight i v) p = record p { weights = set p.weights i v }

unfoldable pub apply_all : List Write → SharedResolve → SharedResolve
apply_all [] p = p
apply_all (w ∷ ws) p = apply_all ws (apply_write w p)

-- The arguments of one call of `publish`, and what the clock gives it.
pub record Publication : Type 0 where
  pub given_addrs : List IpAddr
  pub given_weights : List ℕ
  pub given_workers : ℕ
  pub now : ℕ
  pub later : ℕ
  pub ttl : ℕ

unfoldable pub entry_writes : List IpAddr → List ℕ → ℕ → List Write
entry_writes [] given i = []
entry_writes (a ∷ addrs) given i =
    set_addr i (from_ip a) ∷ set_weight i (get_or given i 1) ∷ entry_writes addrs given (i + 1)

unfoldable pub clear_writes : ℕ → ℕ → List Write
clear_writes zero i = []
clear_writes (suc left) i = set_weight i 0 ∷ clear_writes left (i + 1)

unfoldable pub data_writes : SharedResolve → Publication → List Write
data_writes p pub' =
    let n = min (length pub'.given_addrs) max_addrs in
    set_count n
    ∷ set_revision ((p.revision + 1) % 2 ^ 32)
    ∷ set_workers (pub'.given_workers % 2 ^ 32)
    ∷ (entry_writes (take n pub'.given_addrs) pub'.given_weights 0
        ++ (clear_writes (max_addrs - n) n
            ++ set_published pub'.now ∷ set_expires ((pub'.later + pub'.ttl) % 2 ^ 64) ∷ []))

unfoldable pub publish_writes : SharedResolve → Publication → List Write
publish_writes p pub' =
    set_seq ((p.seq + 1) % 2 ^ 32) ∷ (data_writes p pub' ++ set_seq ((p.seq + 2) % 2 ^ 32) ∷ [])

-- Where `read_if_changed` stands: before its first load; before a load of an address (with the count of
-- entries left, the index and what is read), of a weight, and so on; before its last load; returned.
pub data Reader : Type 0 where
  idle : Reader
  opened : ℕ → Reader
  addr_next weight_next : ℕ → ℕ → ℕ → List IpAddr → List ℕ → Reader
  workers_next : ℕ → List IpAddr → List ℕ → ℕ → Reader
  published_next : ℕ → List IpAddr → List ℕ → ℕ → ℕ → Reader
  closing : ℕ → UpstreamSet → Reader
  returned : Option UpstreamSet → Reader

unfoldable pub reader_step : ℕ → SharedResolve → Reader → Reader
reader_step last_seq p idle =
    if (p.seq == last_seq) || (p.seq % 2 == 1) then returned none else opened p.seq
reader_step last_seq p (opened f) = addr_next f (min p.count max_addrs) 0 [] []
reader_step last_seq p (addr_next f zero i got ws) = workers_next f got ws p.revision
reader_step last_seq p (addr_next f (suc left) i got ws) =
    weight_next f left i (got ++ to_ip (get_or p.addrs i default_raw) ∷ []) ws
reader_step last_seq p (weight_next f left i got ws) =
    addr_next f left (i + 1) got (ws ++ get_or p.weights i 0 ∷ [])
reader_step last_seq p (workers_next f got ws r) = published_next f got ws r p.workers
reader_step last_seq p (published_next f got ws r w) = closing f (record {
  addrs = got;
  weights = ws;
  revision = r;
  workers = w;
  published_mono_secs = p.published_mono_secs;
})
reader_step last_seq p (closing f s) = if f == p.seq then returned (some s) else returned none
reader_step last_seq p (returned o) = returned o

-- A call that no write interrupts.
unfoldable pub read_alone : ℕ → ℕ → SharedResolve → Reader
read_alone zero last_seq p = idle
read_alone (suc n) last_seq p = reader_step last_seq p (read_alone n last_seq p)

pub record System : Type 0 where
  pub page : SharedResolve
  pub writing : List Write
  pub publications : List Publication
  pub reader : Reader

-- `writes i` lets the store that has `i` others before it take effect, the last of them but one at most.
pub data Turn : Type 0 where
  writes : ℕ → Turn
  reads : Turn

-- The store that takes effect of those from `w` on, and the others.
unfoldable pub next_store : ℕ → Write → List Write → Write × List Write
next_store zero w ws = (w, ws)
next_store (suc i) w [] = (w, [])
next_store (suc i) w (v ∷ []) = (w, v ∷ [])
next_store (suc i) w (v ∷ u ∷ ws) = let (x, rest) = next_store i v (u ∷ ws) in (x, w ∷ rest)

unfoldable pub store_one : Write × List Write → System → System
store_one (w, ws) s = record s { page = apply_write w s.page; writing = ws }

unfoldable pub writer_step : ℕ → List Write → List Publication → System → System
writer_step i (w ∷ ws) pubs s = store_one (next_store i w ws) s
writer_step i [] [] s = s
writer_step i [] (pub' ∷ pubs) s = record s {
  writing = publish_writes s.page pub';
  publications = pubs;
}

unfoldable pub turn : ℕ → Turn → System → System
turn last_seq (writes i) s = writer_step i s.writing s.publications s
turn last_seq reads s = record s { reader = reader_step last_seq s.page s.reader }

unfoldable pub turns : ℕ → List Turn → System → System
turns last_seq [] s = s
turns last_seq (t ∷ ts) s = turns last_seq ts (turn last_seq t s)

-- The stores take effect in the order of the program.
abbrev pub StoresInOrder : Turn → Type 0
StoresInOrder (writes zero) = Unit
StoresInOrder (writes (suc i)) = ⊥
StoresInOrder reads = Unit
