-- ===== src/Tests/Processors.antt =====
-- The choice of CPUs at concrete inputs.
use nix_config.Common.{
  ℕ, ◌≡◌, refl, List, [], ◌∷◌, ◌++◌, Option, none, some, ok, Sorted, sort_by, insert_sorted, leb,
  codes, lines, words, trim, trim_start, trim_end, split_on, ended_lines, without_cr, radix_digits,
  parse_radix, bytes_eq, arith,
}
use nix_config.Url.{contains, strip_prefix}
use nix_config.Supervisor.Cpus.{
  QueueEntry, parse_cpumask, mask_cpus, group_cpus, bit_cpus, default_route_iface, chosen_ifaces,
  xps_worker_cpus,
}
use nix_config.Supervisor.Cpus.Plan.{
  CpuEntry, physical_cores, scan_cpus, add_core, cores_of, parse_i64, listed_cpus, parse_each,
}
use nix_config.Supervisor.Cpus.Routes.{HasGateway, default_route_iface-gateway}
use nix_config.Supervisor.Cpus.Queues.{ShortDir, any_iface, xps_worker_cpus-mask_bit}

two_groups : parse_cpumask (codes "00000001,80000003" ++ 10 ∷ []) ≡ 0 ∷ 1 ∷ 31 ∷ 32 ∷ []
unfolding parse_cpumask mask_cpus group_cpus bit_cpus sort_by insert_sorted trim trim_start trim_end
    split_on radix_digits parse_radix
two_groups = refl

abbrev header : List ℕ
header = codes "Iface Destination Gateway Flags"

abbrev through_gateway : List ℕ
through_gateway = codes "ppp0 00000000 0100A8C0 0003"

abbrev on_link : List ℕ
on_link = codes "eth1 0000FEA9 00000000 0001"

abbrev routes_text : List ℕ
routes_text = header ++ 10 ∷ through_gateway ++ 10 ∷ on_link ++ 10 ∷ []

three_lines : lines routes_text ≡ header ∷ ((through_gateway ∷ []) ++ on_link ∷ [])
unfolding ended_lines without_cr split_on
three_lines = refl

with_gateway : HasGateway through_gateway
unfolding words bytes_eq
with_gateway = (codes "ppp0", codes "00000000", codes "0100A8C0", codes "0003" ∷ [], refl, refl)

on_link-words :
    words on_link ≡ codes "eth1" ∷ codes "0000FEA9" ∷ codes "00000000" ∷ codes "0001" ∷ []
unfolding words
on_link-words = refl

default_route_iface-gateway_example : default_route_iface (some routes_text) ≡ some (codes "eth1")
default_route_iface-gateway_example =
    default_route_iface-gateway routes_text header on_link (codes "eth1") (codes "0000FEA9")
      (through_gateway ∷ []) [] (codes "0001" ∷ []) three_lines (with_gateway, tt) on_link-words

abbrev two_queues : List ℕ → Option (List QueueEntry)
two_queues iface = some (
    record { name = some (codes "tx-0"); xps_cpus = some (codes "5") }
    ∷ record { name = some (codes "tx-1"); xps_cpus = some (codes "8") }
    ∷ [])

short_masks : (iface : List ℕ) → ShortDir (two_queues iface)
unfolding trim trim_start trim_end split_on
short_masks iface = (omega arith, (omega arith, tt))

xps_worker_cpus-mask_bit_example :
    (contains 2 (xps_worker_cpus two_queues none (codes "eth0" ∷ []))
      ≡ any_iface 2 two_queues (chosen_ifaces (codes "eth0" ∷ []) (default_route_iface none)))
    × Sorted leb (xps_worker_cpus two_queues none (codes "eth0" ∷ []))
xps_worker_cpus-mask_bit_example =
    xps_worker_cpus-mask_bit 2 two_queues none (codes "eth0" ∷ []) short_masks

abbrev cpu_dir : Option (List CpuEntry)
cpu_dir = some (
    record {
      name = some (codes "cpu1");
      physical_package_id = some (codes "0");
      core_id = some (codes "0");
    }
    ∷ record {
      name = some (codes "cpu2");
      physical_package_id = some (codes "-1");
      core_id = some (codes "3");
    }
    ∷ record {
      name = some (codes "cpu0");
      physical_package_id = some (codes "0");
      core_id = some (codes "0");
    }
    ∷ record { name = some (codes "cpufreq"); physical_package_id = none; core_id = none }
    ∷ [])

two_cores : physical_cores cpu_dir 8 ≡ 2 ∷ 0 ∷ []
unfolding physical_cores scan_cpus add_core cores_of parse_i64 radix_digits parse_radix strip_prefix
    trim trim_start trim_end
two_cores = refl

named_cpus_list : listed_cpus (codes "0, 4,4") ≡ ok (0 ∷ 4 ∷ 4 ∷ [])
unfolding listed_cpus parse_each parse_radix radix_digits trim trim_start trim_end split_on
named_cpus_list = refl
