-- ===== src/Supervisor/Candidates.antt =====
-- main.rs: `update_candidates`, the addresses of the upstream after a resolution.
use nix_config.Common.{
  ℕ, ◌≡◌, ◌⊎◌, inl, inr, refl, sym, ap, ◌∙◌, List, [], ◌∷◌, ◌++◌, Bool, true, false, Bool-cases,
  if◌then◌else◌, ltb, length, take, take_all, arith, sort_by, insert_sorted,
}
use nix_config.Shared.Address.{IpAddr, v4, v6, max_addrs}

abbrev pub is_ipv6 : IpAddr → Bool
is_ipv6 (v4 a b c d) = false
is_ipv6 (v6 octets) = true

-- The order of `is_ipv6`, false first.
abbrev pub v4_first : IpAddr → IpAddr → Bool
v4_first a b = if is_ipv6 a then is_ipv6 b else true

unfoldable pub is_empty_set : List IpAddr → Bool
is_empty_set [] = true
is_empty_set (a ∷ addrs) = false

-- What is set from the addresses in their order.
unfoldable pub adopted : List IpAddr → List IpAddr → List IpAddr
adopted candidates ordered =
    let next = if ltb max_addrs (length ordered) then take max_addrs ordered else ordered in
    if is_empty_set next then candidates else next

unfoldable pub update_candidates : List IpAddr → List IpAddr → Bool → List IpAddr
update_candidates candidates resolved prefer_ipv4 =
    let ordered = if prefer_ipv4 then sort_by v4_first resolved else resolved in
    adopted candidates ordered

unfoldable pub of_family : Bool → List IpAddr → List IpAddr
of_family family [] = []
of_family family (a ∷ addrs) =
    let rest = of_family family addrs in
    if is_ipv6 a then (if family then a ∷ rest else rest) else (if family then rest else a ∷ rest)

insert_v6 :
    (o : List ℕ) (v4s v6s : List IpAddr)
    → of_family true v4s ≡ []
    → of_family false v6s ≡ []
    → insert_sorted v4_first (v6 o) (v4s ++ v6s) ≡ v4s ++ v6 o ∷ v6s
unfolding insert_sorted of_family
insert_v6 o [] [] e f = refl
insert_v6 o [] (v4 a b c d ∷ v6s) e f = cc
insert_v6 o [] (v6 p ∷ v6s) e f = refl
insert_v6 o (v4 a b c d ∷ v4s) v6s e f = ap (λ l. v4 a b c d ∷ l) (insert_v6 o v4s v6s e f)
insert_v6 o (v6 p ∷ v4s) v6s e f = cc

of_family_other :
    (addrs : List IpAddr)
    → (of_family true (of_family false addrs) ≡ []) × (of_family false (of_family true addrs) ≡ [])
unfolding of_family
of_family_other [] = (refl, refl)
of_family_other (v4 a b c d ∷ addrs) = of_family_other addrs
of_family_other (v6 o ∷ addrs) = of_family_other addrs

insert_v4 : (a b c d : ℕ) (l : List IpAddr) → insert_sorted v4_first (v4 a b c d) l ≡ v4 a b c d ∷ l
unfolding insert_sorted
insert_v4 a b c d [] = refl
insert_v4 a b c d (x ∷ l) = refl

sort_by-v4_first :
    (addrs : List IpAddr) → sort_by v4_first addrs ≡ of_family false addrs ++ of_family true addrs
unfolding sort_by of_family
sort_by-v4_first [] = refl
sort_by-v4_first (v4 a b c d ∷ addrs) =
    rw (sort_by-v4_first addrs, insert_v4 a b c d (of_family false addrs ++ of_family true addrs))
      refl
sort_by-v4_first (v6 o ∷ addrs) = rw (sort_by-v4_first addrs) (
    insert_v6 o (of_family false addrs) (of_family true addrs) (of_family_other addrs).0
      (of_family_other addrs).1)

adopted_some :
    (candidates : List IpAddr) (a : IpAddr) (addrs : List IpAddr)
    → adopted candidates (a ∷ addrs) ≡ take 16 (a ∷ addrs)
unfolding adopted is_empty_set
adopted_some candidates a addrs = elim (Bool-cases (ltb 16 (length (a ∷ addrs)))) [
  | inl long ↦ rw long refl
  | inr short ↦ rw short (sym (take_all 16 (a ∷ addrs) (ground arith)))
]

adopted-insert :
    (candidates : List IpAddr) (a : IpAddr) (l : List IpAddr)
    → adopted candidates (insert_sorted v4_first a l) ≡ take 16 (insert_sorted v4_first a l)
unfolding insert_sorted
adopted-insert candidates a [] = adopted_some candidates a []
adopted-insert candidates a (b ∷ l) = elim (Bool-cases (v4_first a b)) [
  | inl first ↦ rw first (adopted_some candidates a (b ∷ l))
  | inr later ↦ rw later (adopted_some candidates b (insert_sorted v4_first a l))
]

unchanged :
    (candidates : List IpAddr) (prefer : Bool) → update_candidates candidates [] prefer ≡ candidates
unfolding update_candidates sort_by is_empty_set adopted
unchanged candidates true = refl
unchanged candidates false = refl

replaced :
    (candidates : List IpAddr) (prefer : Bool) (a : IpAddr) (addrs : List IpAddr)
    → update_candidates candidates (a ∷ addrs) prefer
      ≡ take 16
          (if prefer then of_family false (a ∷ addrs) ++ of_family true (a ∷ addrs) else a ∷ addrs)
unfolding update_candidates sort_by
replaced candidates true a addrs =
    adopted-insert candidates a (sort_by v4_first addrs)
    ∙ ap (λ l. take 16 l) (sort_by-v4_first (a ∷ addrs))
replaced candidates false a addrs = adopted_some candidates a addrs

-- An answer without addresses leaves the candidates. Another replaces them by its first 16 addresses: in
-- their order, or with those of version 4 before those of version 6, each in their order, where version 4
-- is preferred.
pub update_candidates_replaces :
    (candidates resolved : List IpAddr) (prefer_ipv4 : Bool)
    → (update_candidates candidates [] prefer_ipv4 ≡ candidates)
      × ((resolved ≡ [])
          ⊎ (update_candidates candidates resolved prefer_ipv4
              ≡ take 16 (
                  if prefer_ipv4
                  then of_family false resolved ++ of_family true resolved
                  else resolved)))
update_candidates_replaces candidates [] prefer_ipv4 = (unchanged candidates prefer_ipv4, inl refl)
update_candidates_replaces candidates (a ∷ addrs) prefer_ipv4 =
    (unchanged candidates prefer_ipv4, inr (replaced candidates prefer_ipv4 a addrs))
