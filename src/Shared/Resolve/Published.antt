-- ===== src/Shared/Resolve/Published.antt =====
-- shared.rs: a reader gets what was published.
use nix_config.Common.{
  ℕ, ◌+◌, ◌-◌, ◌%◌, ◌^◌, ◌≤◌, ◌≡◌, ◌≢◌, refl, ◌∙◌, sym, ap, List, [], ◌∷◌, ◌++◌, map, none, some,
  length, take, drop, get_or, set, replicate, min, take_all, length-append, arith, take-append_self,
}
use nix_config.Shared.Address.{
  IpAddr, RawAddr, default_raw, from_ip, to_ip, to_ip-from_ip, max_addrs,
}
use nix_config.Shared.Resolve.{
  SharedResolve, store_entries, clear_from, publish, read_entries, read_set, read_if_changed,
}

module _ {A : Type 0} where
  set-middle :
      (pre post : List A) (x v : A) → set (pre ++ x ∷ post) (length pre) v ≡ pre ++ v ∷ post
  set-middle [] post x v = refl
  set-middle (y ∷ pre) post x v = ap (λ (t : List A). y ∷ t) (set-middle pre post x v)

  get-middle : (pre post : List A) (x d : A) → get_or (pre ++ x ∷ post) (length pre) d ≡ x
  get-middle [] post x d = refl
  get-middle (y ∷ pre) post x d = get-middle pre post x d

  append-snoc : (pre post : List A) (x : A) → (pre ++ x ∷ []) ++ post ≡ pre ++ x ∷ post
  append-snoc [] post x = refl
  append-snoc (y ∷ pre) post x = ap (λ (t : List A). y ∷ t) (append-snoc pre post x)

  length-snoc : (pre : List A) (x : A) → length (pre ++ x ∷ []) ≡ length pre + 1
  length-snoc pre x = omega (arith, length-append pre (x ∷ []))

-- The first entries are written over, in order.
store_entries-middle :
    (addrs : List IpAddr) (given_pre given : List ℕ) (pre post : List RawAddr)
    (w_pre w_post : List ℕ)
    → length given ≡ length addrs
    → length addrs ≤ length post
    → length addrs ≤ length w_post
    → length given_pre ≡ length pre
    → length w_pre ≡ length pre
    → store_entries addrs (given_pre ++ given) (length pre) (pre ++ post, w_pre ++ w_post) ≡ (
      pre ++ (map from_ip addrs ++ drop (length addrs) post),
      w_pre ++ (given ++ drop (length addrs) w_post),
    )
unfolding store_entries
store_entries-middle [] gp [] pre post wp wpost hg hp hw h1 h2 = refl
store_entries-middle [] gp (g ∷ gs) pre post wp wpost hg hp hw h1 h2 = absurd (omega arith)
store_entries-middle (a ∷ addrs) gp [] pre post wp wpost hg hp hw h1 h2 = absurd (omega arith)
store_entries-middle (a ∷ addrs) gp (g ∷ gs) pre [] wp wpost hg hp hw h1 h2 = absurd (omega arith)
store_entries-middle (a ∷ addrs) gp (g ∷ gs) pre (r ∷ post) wp [] hg hp hw h1 h2 =
    absurd (omega arith)
store_entries-middle (a ∷ addrs) gp (g ∷ gs) pre (r ∷ post) wp (w ∷ wpost) hg hp hw h1 h2 =
    let rest =
      store_entries-middle addrs (gp ++ g ∷ []) gs (pre ++ from_ip a ∷ []) post (wp ++ g ∷ []) wpost
        (omega arith) (omega arith) (omega arith)
        (omega (arith, length-snoc gp g, length-snoc pre (from_ip a)))
        (omega (arith, length-snoc wp g, length-snoc pre (from_ip a))) in
    let stored : set (wp ++ w ∷ wpost) (length pre) g ≡ wp ++ g ∷ wpost =
      rw (← h2) (set-middle wp wpost w g) in
    let found : get_or (gp ++ g ∷ gs) (length pre) 1 ≡ g = rw (← h1) (get-middle gp gs g 1) in
    rw (set-middle pre post r (from_ip a), found, stored)
      (rw
        (
          append-snoc gp gs g,
          append-snoc pre post (from_ip a),
          append-snoc wp wpost g,
          length-snoc pre (from_ip a),
          append-snoc pre (map from_ip addrs ++ drop (length addrs) post) (from_ip a),
          append-snoc wp (gs ++ drop (length addrs) wpost) g,
        )
        at rest)

read_entries-middle :
    (addrs : List IpAddr) (given : List ℕ) (pre post : List RawAddr) (w_pre w_post : List ℕ)
    (p : SharedResolve)
    → length given ≡ length addrs
    → length w_pre ≡ length pre
    → p.addrs ≡ pre ++ (map from_ip addrs ++ post)
    → p.weights ≡ w_pre ++ (given ++ w_post)
    → read_entries (length addrs) (length pre) p ≡ (addrs, given)
unfolding read_entries
read_entries-middle [] [] pre post wp wpost p hg h1 ea ew = refl
read_entries-middle [] (g ∷ gs) pre post wp wpost p hg h1 ea ew = absurd (omega arith)
read_entries-middle (a ∷ addrs) [] pre post wp wpost p hg h1 ea ew = absurd (omega arith)
read_entries-middle (a ∷ addrs) (g ∷ gs) pre post wp wpost p hg h1 ea ew =
    let raws : p.addrs ≡ (pre ++ from_ip a ∷ []) ++ (map from_ip addrs ++ post) =
      ea ∙ sym (append-snoc pre (map from_ip addrs ++ post) (from_ip a)) in
    let weights : p.weights ≡ (wp ++ g ∷ []) ++ (gs ++ wpost) =
      ew ∙ sym (append-snoc wp (gs ++ wpost) g) in
    let rest =
      read_entries-middle addrs gs (pre ++ from_ip a ∷ []) post (wp ++ g ∷ []) wpost p (omega arith)
        (omega (arith, length-snoc wp g, length-snoc pre (from_ip a))) raws weights in
    let addr : to_ip (get_or p.addrs (length pre) default_raw) ≡ a =
      rw (ea, get-middle pre (map from_ip addrs ++ post) (from_ip a) default_raw)
        (to_ip-from_ip a) in
    let weight : get_or p.weights (length pre) 0 ≡ g =
      rw (ew, ← h1) (get-middle wp (gs ++ wpost) g 0) in
    rw (rw (length-snoc pre (from_ip a)) at rest, addr, weight) refl

-- `publish` on a page of sixteen entries at rest, with one weight for each of at most sixteen addresses: a reader that has
-- not seen the new sequence number gets exactly these addresses and weights, the next revision, the
-- number of workers and the time, and a second read gets nothing new.
pub read-publish :
    (addrs : List IpAddr) (given : List ℕ) (workers now later ttl : ℕ) (p : SharedResolve)
    (last_seq : ℕ)
    → length p.addrs ≡ 16
    → length p.weights ≡ 16
    → length addrs ≤ 16
    → length given ≡ length addrs
    → p.seq % 2 ≡ 0
    → last_seq ≢ (p.seq + 2) % 2 ^ 32
    → let q = publish addrs given workers now later ttl p in
      (read_if_changed last_seq q q.seq ≡ (
        q.seq,
        some (record {
          addrs = addrs;
          weights = given;
          revision = (p.revision + 1) % 2 ^ 32;
          workers = workers % 2 ^ 32;
          published_mono_secs = now;
        }),
      ))
      × (read_if_changed q.seq q q.seq ≡ (q.seq, none))
unfolding publish read_if_changed read_set clear_from
read-publish addrs given workers now later ttl p last_seq hr hw fits same even unseen =
    let count : min (length addrs) 16 ≡ length addrs = omega arith in
    let stored =
      store_entries-middle addrs [] given [] p.addrs [] p.weights same (omega arith) (omega arith)
        refl refl in
    let q = publish addrs given workers now later ttl p in
    let whole = take_all (length addrs) addrs (omega arith) in
    let raws : q.addrs ≡ map from_ip addrs ++ drop (length addrs) p.addrs =
      rw (count, whole, stored) refl in
    let kept : take (length addrs) (given ++ drop (length addrs) p.weights) ≡ given =
      rw (← same) (take-append_self given (drop (length given) p.weights)) in
    let zeros : List ℕ =
      replicate (length (given ++ drop (length addrs) p.weights) - length addrs) 0 in
    let weights : q.weights ≡ given ++ zeros =
      rw (count, whole, stored) (ap (λ (t : List ℕ). t ++ zeros) kept) in
    let entries = read_entries-middle addrs given [] _ [] zeros q same refl raws weights in
    let capped : min (min (length addrs) max_addrs) max_addrs ≡ length addrs = omega arith in
    (ground (arith, capped, entries), ground arith)
