-- ===== src/Shared/Resolve.antt =====
-- shared.rs: the resolve page, with `publish` and `read_if_changed`. The clock and the time to live are
-- arguments; the sequence counter that `read_if_changed` loads at its end, when the supervisor may have
-- gone on, is an argument of its own.
use nix_config.Common.{
  ℕ, zero, suc, ◌+◌, ◌-◌, ◌*◌, ◌/◌, ◌%◌, ◌^◌, List, [], ◌∷◌, ◌++◌, Bool, true, false, Option, none,
  some, if◌then◌else◌, ltb, ◌==◌, ◌||◌, not, length, take, get_or, set, replicate, min,
}
use nix_config.Shared.Address.{IpAddr, RawAddr, default_raw, from_ip, to_ip, max_addrs}
use nix_config.Shared.Upstream.{UpstreamSet}
pub mod Published

pub record SharedResolve : Type 0 where
  pub seq : ℕ
  pub count : ℕ
  pub revision : ℕ
  pub workers : ℕ
  pub published_mono_secs : ℕ
  pub expires_mono_secs : ℕ
  pub addrs : List RawAddr
  pub weights : List ℕ

-- The page that `create` maps: zeros.
abbrev pub new_page : SharedResolve
new_page = record {
  seq = 0;
  count = 0;
  revision = 0;
  workers = 0;
  published_mono_secs = 0;
  expires_mono_secs = 0;
  addrs = replicate max_addrs default_raw;
  weights = replicate max_addrs 0;
}

-- `for (i, addr) in addrs.iter().take(n).enumerate()`, over the two arrays of the page.
unfoldable pub store_entries :
    List IpAddr → List ℕ → ℕ → List RawAddr × List ℕ → List RawAddr × List ℕ
store_entries [] given i arrays = arrays
store_entries (addr ∷ addrs) given i (raws, weights) =
    store_entries addrs given (i + 1) (set raws i (from_ip addr), set weights i (get_or given i 1))

-- `for w in p.weights.iter_mut().skip(n)`.
unfoldable pub clear_from : ℕ → List ℕ → List ℕ
clear_from n weights = take n weights ++ replicate (length weights - n) 0

-- The sequence counter is left even, two further.
unfoldable pub publish : List IpAddr → List ℕ → ℕ → ℕ → ℕ → ℕ → SharedResolve → SharedResolve
publish addrs given workers now later ttl p =
    let n = min (length addrs) max_addrs in
    let arrays = store_entries (take n addrs) given 0 (p.addrs, p.weights) in
    record {
      seq = (p.seq + 2) % 2 ^ 32;
      count = n;
      revision = (p.revision + 1) % 2 ^ 32;
      workers = workers % 2 ^ 32;
      published_mono_secs = now;
      expires_mono_secs = (later + ttl) % 2 ^ 64;
      addrs = arrays.0;
      weights = clear_from n arrays.1;
    }

-- The loop of the reader, over the entries from `i` on.
unfoldable pub read_entries : ℕ → ℕ → SharedResolve → List IpAddr × List ℕ
read_entries zero i p = ([], [])
read_entries (suc left) i p =
    let rest = read_entries left (i + 1) p in
    (to_ip (get_or p.addrs i default_raw) ∷ rest.0, get_or p.weights i 0 ∷ rest.1)

unfoldable pub read_set : SharedResolve → UpstreamSet
read_set p =
    let entries = read_entries (min p.count max_addrs) 0 p in
    record {
      addrs = entries.0;
      weights = entries.1;
      revision = p.revision;
      workers = p.workers;
      published_mono_secs = p.published_mono_secs;
    }

-- `last_seq` and the page give the new `last_seq` and the result; `second` is the last load.
unfoldable pub read_if_changed : ℕ → SharedResolve → ℕ → ℕ × Option UpstreamSet
read_if_changed last_seq p second =
    if (p.seq == last_seq) || (p.seq % 2 == 1)
    then (last_seq, none)
    else if not (p.seq == second)
    then (last_seq, none)
    else (p.seq, some (read_set p))
