-- ===== src/Supervisor/Cpus.antt =====
-- main.rs: the CPUs that get a worker, from the topology, from the queues of a network interface or from the
-- command line. What the files and directories hold is an argument, and `none` an error of the system.
use nix_config.Common.{
  ℕ, zero, suc, ◌+◌, ◌-◌, ◌*◌, ◌/◌, ◌%◌, ◌^◌, List, [], ◌∷◌, ◌++◌, Bool, true, false, ◌&&◌, ◌||◌,
  Option, none, some, Result, ok, err, if◌then◌else◌, ltb, leb, ◌==◌, min, max, length, take,
  sort_by, bytes_eq, codes, trim, split_on, lines, words, dec_digit, hex_digit, radix_digits,
  parse_radix,
}
use nix_config.Url.{contains, strip_prefix}
pub mod Plan
pub mod Cores
pub mod Routes
pub mod Masks
pub mod Queues

abbrev pub u32_limit : ℕ
u32_limit = 2 ^ 32

-- The CPUs of one group of 32 bits, from a bit on.
unfoldable pub bit_cpus : ℕ → ℕ → ℕ → ℕ → List ℕ
bit_cpus group bits zero bit = []
bit_cpus group bits (suc left) bit =
    let rest = bit_cpus group bits left (bit + 1) in
    if bits / 2 ^ bit % 2 == 1 then (group * 32 + bit) % u32_limit ∷ rest else rest

abbrev pub bits_cpus : ℕ → Option ℕ → List ℕ
bits_cpus group none = []
bits_cpus group (some bits) = bit_cpus group bits 32 0

unfoldable pub group_cpus : ℕ → List ℕ → List ℕ
group_cpus group part = bits_cpus group (parse_radix 16 hex_digit u32_limit (trim part))

-- The last part is group 0, and the first to be read.
unfoldable pub mask_cpus : List (List ℕ) → List ℕ
mask_cpus [] = []
mask_cpus (part ∷ parts) = mask_cpus parts ++ group_cpus (length parts) part

unfoldable pub parse_cpumask : List ℕ → List ℕ
parse_cpumask s = sort_by leb (mask_cpus (split_on 44 (trim s)))

-- An entry of the directory of an interface's queues; a name is `none` where it is no text.
pub record QueueEntry : Type 0 where
  pub name : Option (List ℕ)
  pub xps_cpus : Option (List ℕ)

abbrev pub tx_mask : Option (List ℕ) → Option (List ℕ) → List ℕ
tx_mask none mask = []
tx_mask (some rest) none = []
tx_mask (some rest) (some mask) = parse_cpumask mask

abbrev pub named_cpus : Option (List ℕ) → Option (List ℕ) → List ℕ
named_cpus none mask = []
named_cpus (some name) mask = tx_mask (strip_prefix (codes "tx-") name) mask

unfoldable pub queue_cpus : QueueEntry → List ℕ
queue_cpus e = named_cpus e.name e.xps_cpus

-- `push` of each that is not there yet.
unfoldable pub add_new : List ℕ → List ℕ → List ℕ
add_new [] cpus = cpus
add_new (c ∷ new) cpus = add_new new (if contains c cpus then cpus else cpus ++ c ∷ [])

unfoldable pub queues_cpus : List QueueEntry → List ℕ → List ℕ
queues_cpus [] cpus = cpus
queues_cpus (e ∷ entries) cpus = queues_cpus entries (add_new (queue_cpus e) cpus)

unfoldable pub xps_cpus_of : Option (List QueueEntry) → List ℕ
xps_cpus_of none = []
xps_cpus_of (some entries) = sort_by leb (queues_cpus entries [])

-- A line with fewer than two fields ends the search; one with two is passed over.
abbrev pub route_of : List (List ℕ) → Option (List ℕ) → Option (List ℕ)
route_of [] next = none
route_of (iface ∷ []) next = none
route_of (iface ∷ dest ∷ []) next = next
route_of (iface ∷ dest ∷ third ∷ fields) next =
    if bytes_eq third (codes "00000000") then some iface else next

unfoldable pub route_in : List (List ℕ) → Option (List ℕ)
route_in [] = none
route_in (line ∷ rest) = route_of (words line) (route_in rest)

abbrev pub after_header : List (List ℕ) → List (List ℕ)
after_header [] = []
after_header (line ∷ rest) = rest

unfoldable pub default_route_iface : Option (List ℕ) → Option (List ℕ)
default_route_iface none = none
default_route_iface (some routes) = route_in (after_header (lines routes))

abbrev pub chosen_ifaces : List (List ℕ) → Option (List ℕ) → List (List ℕ)
chosen_ifaces [] none = []
chosen_ifaces [] (some iface) = iface ∷ []
chosen_ifaces (iface ∷ ifaces) default = iface ∷ ifaces

unfoldable pub ifaces_cpus : (List ℕ → Option (List QueueEntry)) → List (List ℕ) → List ℕ → List ℕ
ifaces_cpus queues [] cpus = cpus
ifaces_cpus queues (iface ∷ ifaces) cpus =
    ifaces_cpus queues ifaces (add_new (xps_cpus_of (queues iface)) cpus)

unfoldable pub xps_worker_cpus :
    (List ℕ → Option (List QueueEntry)) → Option (List ℕ) → List (List ℕ) → List ℕ
xps_worker_cpus queues routes ifaces =
    sort_by leb (ifaces_cpus queues (chosen_ifaces ifaces (default_route_iface routes)) [])
