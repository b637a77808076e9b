-- ===== src/Supervisor/Cpus/Queues.antt =====
-- main.rs: the CPUs that `xps_worker_cpus` finds in the masks of the queues.
use nix_config.Common.{
  ℕ, ◌^◌, ◌≤◌, ◌≡◌, refl, ap, ◌∙◌, subst, List, [], ◌∷◌, ◌++◌, Bool, true, false, ◌||◌, Bool-cases,
  Option, none, some, inl, inr, leb, ◌==◌, ==_iff, length, sort_by-Sorted, Sorted, All, trim,
  split_on, codes, arith,
}
use nix_config.Url.{contains, strip_prefix}
use nix_config.Supervisor.Cpus.{
  tx_mask, named_cpus, QueueEntry, queue_cpus, add_new, queues_cpus, xps_cpus_of, chosen_ifaces,
  ifaces_cpus, default_route_iface, xps_worker_cpus,
}
use nix_config.Supervisor.Cpus.Masks.{
  mask_bit, contains-append, contains-sort_by, contains-parse_cpumask,
}

-- A mask whose groups have numbers below 2 ^ 27, so that its CPUs are below 2 ^ 32.
abbrev pub ShortMask : Option (List ℕ) → Type 0
ShortMask none = Unit
ShortMask (some mask) = length (split_on 44 (trim mask)) ≤ 2 ^ 27

abbrev pub ShortQueue : QueueEntry → Type 0
ShortQueue e = ShortMask e.xps_cpus

abbrev pub ShortDir : Option (List QueueEntry) → Type 0
ShortDir none = Unit
ShortDir (some entries) = All ShortQueue entries

-- Bit `c` of the mask of a transmit queue; of one of an interface's; of one of some interfaces'.
abbrev pub tx_bit : ℕ → Option (List ℕ) → Option (List ℕ) → Bool
tx_bit c none mask = false
tx_bit c (some rest) none = false
tx_bit c (some rest) (some mask) = mask_bit c mask

abbrev pub named_bit : ℕ → Option (List ℕ) → Option (List ℕ) → Bool
named_bit c none mask = false
named_bit c (some name) mask = tx_bit c (strip_prefix (codes "tx-") name) mask

abbrev pub any_queue : ℕ → List QueueEntry → Bool
any_queue c [] = false
any_queue c (e ∷ entries) = named_bit c e.name e.xps_cpus || any_queue c entries

abbrev pub dir_bit : ℕ → Option (List QueueEntry) → Bool
dir_bit c none = false
dir_bit c (some entries) = any_queue c entries

abbrev pub any_iface : ℕ → (List ℕ → Option (List QueueEntry)) → List (List ℕ) → Bool
any_iface c queues [] = false
any_iface c queues (iface ∷ ifaces) = dir_bit c (queues iface) || any_iface c queues ifaces

contains-other : (c x : ℕ) (cpus : List ℕ) → contains x cpus ≡ true → x ≡ c → contains c cpus ≡ true
contains-other c x cpus old e = subst (λ (y : ℕ). contains y cpus ≡ true) e old

contains-add_new :
    (c : ℕ) (new cpus : List ℕ)
    → contains c (add_new new cpus) ≡ (contains c new || contains c cpus)
unfolding add_new
contains-add_new c [] cpus = unfold contains in refl
contains-add_new c (x ∷ new) cpus = elim (Bool-cases (contains x cpus)) [
  | inl old ↦
      rw (old, contains-add_new c new cpus)
        (unfold contains in
          (elim (Bool-cases (x == c)) [
            | inl same ↦
                let here = contains-other c x cpus old ((==_iff x c).0 same) in ground (arith, here)
            | inr other ↦ ground arith
          ]))
  | inr fresh ↦
      rw (fresh, contains-add_new c new (cpus ++ x ∷ []), contains-append c cpus (x ∷ []))
        (unfold contains in ground arith)
]

contains-tx_mask :
    (c : ℕ) (rest mask : Option (List ℕ))
    → ShortMask mask
    → contains c (tx_mask rest mask) ≡ tx_bit c rest mask
contains-tx_mask c none mask h = unfold contains in refl
contains-tx_mask c (some rest) none h = unfold contains in refl
contains-tx_mask c (some rest) (some mask) h = contains-parse_cpumask c mask h

contains-named_cpus :
    (c : ℕ) (name mask : Option (List ℕ))
    → ShortMask mask
    → contains c (named_cpus name mask) ≡ named_bit c name mask
contains-named_cpus c none mask h = unfold contains in refl
contains-named_cpus c (some name) mask h =
    contains-tx_mask c (strip_prefix (codes "tx-") name) mask h

contains-queue_cpus :
    (c : ℕ) (e : QueueEntry)
    → ShortQueue e
    → contains c (queue_cpus e) ≡ named_bit c e.name e.xps_cpus
unfolding queue_cpus
contains-queue_cpus c e h = contains-named_cpus c e.name e.xps_cpus h

or_swap : (a b d : Bool) → (a || (b || d)) ≡ ((b || a) || d)
or_swap true true d = refl
or_swap true false d = refl
or_swap false true d = refl
or_swap false false d = refl

or_none : (c : ℕ) (b : Bool) → (b || contains c []) ≡ b
unfolding contains
or_none c true = refl
or_none c false = refl

contains-queues_cpus :
    (c : ℕ) (entries : List QueueEntry) (cpus : List ℕ)
    → All ShortQueue entries
    → contains c (queues_cpus entries cpus) ≡ (any_queue c entries || contains c cpus)
unfolding queues_cpus
contains-queues_cpus c [] cpus h = refl
contains-queues_cpus c (e ∷ entries) cpus (short, h) =
    contains-queues_cpus c entries (add_new (queue_cpus e) cpus) h
    ∙ ap (λ b. any_queue c entries || b)
        (contains-add_new c (queue_cpus e) cpus
          ∙ ap (λ b. b || contains c cpus) (contains-queue_cpus c e short))
    ∙ or_swap (any_queue c entries) (named_bit c e.name e.xps_cpus) (contains c cpus)

contains-xps_cpus_of :
    (c : ℕ) (dir : Option (List QueueEntry))
    → ShortDir dir
    → contains c (xps_cpus_of dir) ≡ dir_bit c dir
unfolding xps_cpus_of
contains-xps_cpus_of c none h = unfold contains in refl
contains-xps_cpus_of c (some entries) h =
    contains-sort_by c (queues_cpus entries [])
    ∙ contains-queues_cpus c entries [] h
    ∙ or_none c (any_queue c entries)

contains-ifaces_cpus :
    (c : ℕ) (queues : List ℕ → Option (List QueueEntry)) (ifaces : List (List ℕ)) (cpus : List ℕ)
    → ((iface : List ℕ) → ShortDir (queues iface))
    → contains c (ifaces_cpus queues ifaces cpus) ≡ (any_iface c queues ifaces || contains c cpus)
unfolding ifaces_cpus
contains-ifaces_cpus c queues [] cpus h = refl
contains-ifaces_cpus c queues (iface ∷ ifaces) cpus h =
    contains-ifaces_cpus c queues ifaces (add_new (xps_cpus_of (queues iface)) cpus) h
    ∙ ap (λ b. any_iface c queues ifaces || b)
        (contains-add_new c (xps_cpus_of (queues iface)) cpus
          ∙ ap (λ b. b || contains c cpus) (contains-xps_cpus_of c (queues iface) (h iface)))
    ∙ or_swap (any_iface c queues ifaces) (dir_bit c (queues iface)) (contains c cpus)

leb_total : (x y : ℕ) → leb x y ≡ false → leb y x ≡ true
leb_total x y e = ground arith

leb_trans : (x y z : ℕ) → leb x y ≡ true → leb y z ≡ true → leb x z ≡ true
leb_trans x y z e f = ground arith

-- Where no mask has more than 2 ^ 27 groups: a CPU is found if and only if its bit is set in the mask of a
-- transmit queue of one of the interfaces, those given or, without one, the one that `default_route_iface`
-- takes; the CPUs are in ascending order.
pub xps_worker_cpus-mask_bit :
    (c : ℕ) (queues : List ℕ → Option (List QueueEntry)) (routes : Option (List ℕ))
    (ifaces : List (List ℕ))
    → ((iface : List ℕ) → ShortDir (queues iface))
    → (contains c (xps_worker_cpus queues routes ifaces)
        ≡ any_iface c queues (chosen_ifaces ifaces (default_route_iface routes)))
      × Sorted leb (xps_worker_cpus queues routes ifaces)
unfolding xps_worker_cpus
xps_worker_cpus-mask_bit c queues routes ifaces h =
    let chosen = chosen_ifaces ifaces (default_route_iface routes) in
    (
      contains-sort_by c (ifaces_cpus queues chosen [])
          ∙ contains-ifaces_cpus c queues chosen [] h
          ∙ or_none c (any_iface c queues chosen),
      sort_by-Sorted leb leb_total leb_trans (ifaces_cpus queues chosen []),
    )
