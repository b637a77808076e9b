-- ===== src/Common/Filtered.antt =====
-- The keys of the entries of a map that pass a test, and the map without them.
use Prim.Native.Nat.{ℕ}
use mathlib.Core.Path.{◌≡◌, refl, sym, subst}
use mathlib.Core.Logic.{◌⊎◌, inl, inr}
use mathlib.Core.Bool.{Bool, true, false, ◌||◌}
use mathlib.Core.List.{List, [], ◌∷◌}
use native.Mathlib.Omega.{arith}
use nix_config.Common.Tests.{◌==◌, Bool-cases, if◌then◌else◌}
use nix_config.Common.Lists.{All}
use nix_config.Common.Assoc.{remove_key}

unfoldable has_key : ℕ → List ℕ → Bool
has_key k [] = false
has_key k (j ∷ ks) = (j == k) || has_key k ks

module _ {ℓ} {V : Type ℓ} where
  -- `filter` on the values and `map` to the keys; a `HashMap` gives them in any order.
  unfoldable pub keys_where : (V → Bool) → List (ℕ × V) → List ℕ
  keys_where test [] = []
  keys_where test ((k, v) ∷ m) = let rest = keys_where test m in if test v then k ∷ rest else rest

  unfoldable pub remove_all : List ℕ → List (ℕ × V) → List (ℕ × V)
  remove_all [] m = m
  remove_all (k ∷ ks) m = remove_all ks (remove_key k m)

  abbrev pub Fails : (V → Bool) → ℕ × V → Type 0
  Fails test (k, v) = test v ≡ false

  -- Each fails the test or has its key in the list.
  abbrev Listed : (V → Bool) → List ℕ → ℕ × V → Type 0
  Listed test ks (k, v) = (test v ≡ false) ⊎ (has_key k ks ≡ true)

  All-Listed :
      (test : V → Bool) (k : ℕ) (ks : List ℕ) (m : List (ℕ × V))
      → All (Listed test ks) m
      → All (Listed test (k ∷ ks)) m
  unfolding has_key
  All-Listed test k ks [] h = tt
  All-Listed test k ks ((j, v) ∷ m) (first, h) = (ground arith, All-Listed test k ks m h)

  cons-Listed :
      (test : V → Bool) (k : ℕ) (v : V) (m : List (ℕ × V)) (ks : List ℕ) (b : Bool)
      → test v ≡ b
      → All (Listed test ks) m
      → All (Listed test (if b then k ∷ ks else ks)) ((k, v) ∷ m)
  cons-Listed test k v m ks true passes h =
      (inr (unfold has_key in ground arith), All-Listed test k ks m h)
  cons-Listed test k v m ks false fails h = (inl fails, h)

  keys_where-cons :
      (test : V → Bool) (k : ℕ) (v : V) (m : List (ℕ × V))
      → keys_where test ((k, v) ∷ m) ≡ (if test v then k ∷ keys_where test m else keys_where test m)
  unfolding keys_where
  keys_where-cons test k v m = refl

  keys_where-Listed : (test : V → Bool) (m : List (ℕ × V)) → All (Listed test (keys_where test m)) m
  keys_where-Listed test [] = tt
  keys_where-Listed test ((k, v) ∷ m) =
      subst (λ ks. All (Listed test ks) ((k, v) ∷ m)) (sym (keys_where-cons test k v m))
        (cons-Listed test k v m (keys_where test m) (test v) refl (keys_where-Listed test m))

  remove_key-Listed :
      (test : V → Bool) (k : ℕ) (ks : List ℕ) (m : List (ℕ × V))
      → All (Listed test (k ∷ ks)) m
      → All (Listed test ks) (remove_key k m)
  unfolding remove_key has_key
  remove_key-Listed test k ks [] h = tt
  remove_key-Listed test k ks ((j, v) ∷ m) (first, h) = elim (Bool-cases (j == k)) [
    | inl same ↦ rw same (remove_key-Listed test k ks m h)
    | inr other ↦ rw other (ground arith, remove_key-Listed test k ks m h)
  ]

  remove_all-Fails :
      (test : V → Bool) (ks : List ℕ) (m : List (ℕ × V))
      → All (Listed test ks) m
      → All (Fails test) (remove_all ks m)
  unfolding remove_all
  remove_all-Fails test [] [] h = tt
  remove_all-Fails test [] ((k, v) ∷ m) (first, h) =
      (unfold has_key in ground arith, unfold remove_all in remove_all-Fails test [] m h)
  remove_all-Fails test (k ∷ ks) m h =
      remove_all-Fails test ks (remove_key k m) (remove_key-Listed test k ks m h)

  -- Without the keys that pass, each entry fails the test.
  pub remove_all-keys_where :
      (test : V → Bool) (m : List (ℕ × V)) → All (Fails test) (remove_all (keys_where test m) m)
  remove_all-keys_where test m =
      remove_all-Fails test (keys_where test m) m (keys_where-Listed test m)
