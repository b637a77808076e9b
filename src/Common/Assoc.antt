-- ===== src/Common/Assoc.antt =====
-- A hash map with numbers for keys, as an association list. `insert` replaces, as the map does.
use Prim.Native.Nat.{ℕ}
use mathlib.Core.Path.{◌≡◌}
use mathlib.Core.List.{List, [], ◌∷◌}
use mathlib.Core.Option.{Option, none, some}
use native.Mathlib.Omega.{arith}
use mathlib.Core.Logic.{inl, inr}
use mathlib.Core.Path.{refl}
use Prim.Native.Nat.{◌+◌}
use nix_config.Common.Lists.{length}
use nix_config.Common.Tests.{◌==◌, ==_iff, Bool-cases, if◌then◌else◌}

module _ {ℓ} {V : Type ℓ} where
  unfoldable pub find_key : ℕ → List (ℕ × V) → Option V
  find_key k [] = none
  find_key k ((j, v) ∷ m) = if j == k then some v else find_key k m

  unfoldable pub remove_key : ℕ → List (ℕ × V) → List (ℕ × V)
  remove_key k [] = []
  remove_key k ((j, v) ∷ m) = let rest = remove_key k m in if j == k then rest else (j, v) ∷ rest

  unfoldable pub insert_key : ℕ → V → List (ℕ × V) → List (ℕ × V)
  insert_key k v m = (k, v) ∷ remove_key k m

  pub find-remove :
      (k j : ℕ) (m : List (ℕ × V))
      → find_key j (remove_key k m) ≡ (if k == j then none else find_key j m)
  unfolding find_key remove_key
  find-remove k j [] = ground arith
  find-remove k j ((i, w) ∷ m) = ground (arith, find-remove k j m)

  pub find-insert :
      (k j : ℕ) (v : V) (m : List (ℕ × V))
      → find_key j (insert_key k v m) ≡ (if k == j then some v else find_key j m)
  unfolding find_key insert_key
  find-insert k j v m = ground (arith, find-remove k j m)

  -- Each key stands once.
  unfoldable pub Distinct : List (ℕ × V) → Type ℓ
  Distinct [] = Unit
  Distinct ((k, v) ∷ m) = (find_key k m ≡ none) × Distinct m

  -- A key that is not there is not removed; one that is there is removed once.
  pub remove-absent : (k : ℕ) (m : List (ℕ × V)) → find_key k m ≡ none → remove_key k m ≡ m
  unfolding find_key remove_key
  remove-absent k [] h = refl
  remove-absent k ((j, p) ∷ m) h = ground (arith, remove-absent k m)

  pub length-remove :
      (k : ℕ) (m : List (ℕ × V)) (p : V)
      → Distinct m
      → find_key k m ≡ some p
      → length (remove_key k m) + 1 ≡ length m
  unfolding find_key remove_key Distinct
  length-remove k [] p d e = cc
  length-remove k ((j, q) ∷ m) p (gone, d) e = elim (Bool-cases (j == k)) [
    | inl same ↦
        let same' : j ≡ k = (==_iff j k).0 same in
        rw (same, remove-absent k m (rw same' at gone)) (omega arith)
    | inr other ↦ rw other (omega (arith, length-remove k m p d (rw other at e)))
  ]

  pub remove-Distinct : (k : ℕ) (m : List (ℕ × V)) → Distinct m → Distinct (remove_key k m)
  unfolding remove_key Distinct
  remove-Distinct k [] d = tt
  remove-Distinct k ((j, q) ∷ m) (gone, d) = elim (Bool-cases (j == k)) [
    | inl same ↦ rw same (remove-Distinct k m d)
    | inr other ↦ rw other (rw (find-remove k j m, gone) (ground arith), remove-Distinct k m d)
  ]
