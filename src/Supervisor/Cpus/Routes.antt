-- ===== src/Supervisor/Cpus/Routes.antt =====
-- main.rs: the interface that `default_route_iface` takes.
use nix_config.Common.{
  ℕ, ◌≡◌, refl, ◌∙◌, List, [], ◌∷◌, ◌++◌, some, All, bytes_eq, false, codes, lines, words,
  bytes_eq_refl,
}
use nix_config.Supervisor.Cpus.{default_route_iface, route_in}

-- A line of three fields or more, the third of them not the zeros.
abbrev pub HasGateway : List ℕ → Type 0
HasGateway line =
    (iface : List ℕ) × (destination : List ℕ) × (gateway : List ℕ) × (fields : List (List ℕ))
    × (words line ≡ iface ∷ destination ∷ gateway ∷ fields)
    × (bytes_eq gateway (codes "00000000") ≡ false)

route_in-skips :
    (before rest : List (List ℕ))
    → All HasGateway before
    → route_in (before ++ rest) ≡ route_in rest
unfolding route_in
route_in-skips [] rest h = refl
route_in-skips (line ∷ before) rest ((iface, destination, gateway, fields, e, other), h) =
    rw (e, other) (route_in-skips before rest h)

-- A table of routes whose lines, after the header, begin with some that have a gateway that is not zero,
-- whatever their destination, and go on with one whose gateway is zero: the interface of that one is taken,
-- whatever its destination.
pub default_route_iface-gateway :
    (text header row iface destination : List ℕ) (before after fields : List (List ℕ))
    → lines text ≡ header ∷ (before ++ row ∷ after)
    → All HasGateway before
    → words row ≡ iface ∷ destination ∷ codes "00000000" ∷ fields
    → default_route_iface (some text) ≡ some iface
unfolding default_route_iface
default_route_iface-gateway text header row iface destination before after fields e h found =
    rw e (route_in-skips before (row ∷ after) h ∙ taken)
  where
    taken : route_in (row ∷ after) ≡ some iface
    taken = unfold route_in in rw (found, bytes_eq_refl (codes "00000000")) refl
