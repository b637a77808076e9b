-- ===== src/Common/Decimal.antt =====
-- Rust's `str::parse::<u16>` and the equality of byte strings.
use Prim.Native.Nat.{ℕ, ◌+◌, ◌-◌, ◌*◌, ◌<◌}
use mathlib.Core.Path.{◌≡◌, refl}
use mathlib.Core.Bool.{Bool, true, false, ◌&&◌}
use mathlib.Core.List.{List, [], ◌∷◌}
use mathlib.Core.Option.{Option, none, some}
use native.Mathlib.Omega.{arith}
use nix_config.Common.Tests.{ltb, leb, ◌==◌, if◌then◌else◌}

-- `==` of two byte strings.
unfoldable pub bytes_eq : List ℕ → List ℕ → Bool
bytes_eq [] [] = true
bytes_eq [] (y ∷ ys) = false
bytes_eq (x ∷ xs) [] = false
bytes_eq (x ∷ xs) (y ∷ ys) = (x == y) && bytes_eq xs ys

-- The digits that are left, after the value `n`; a result over 65535 is an error.
unfoldable pub u16_digits : List ℕ → ℕ → Option ℕ
u16_digits [] n = some n
u16_digits (c ∷ cs) n =
    let n' = n * 10 + (c - 48) in
    let rest = u16_digits cs n' in if leb 48 c && leb c 57 && ltb n' 65536 then rest else none

-- A leading `+` is allowed, an empty number is not.
unfoldable pub parse_u16 : List ℕ → Option ℕ
unfolding u16_digits
parse_u16 [] = none
parse_u16 (c ∷ []) = if c == 43 then none else u16_digits (c ∷ []) 0
parse_u16 (c ∷ d ∷ cs) = if c == 43 then u16_digits (d ∷ cs) 0 else u16_digits (c ∷ d ∷ cs) 0

pub bytes_eq_refl : (xs : List ℕ) → bytes_eq xs xs ≡ true
unfolding bytes_eq
bytes_eq_refl [] = refl
bytes_eq_refl (x ∷ xs) = ground (arith, bytes_eq_refl xs)

pub bytes_eq→eq : (xs ys : List ℕ) → bytes_eq xs ys ≡ true → xs ≡ ys
unfolding bytes_eq
bytes_eq→eq [] [] h = refl
bytes_eq→eq [] (y ∷ ys) h = cc
bytes_eq→eq (x ∷ xs) [] h = cc
bytes_eq→eq (x ∷ xs) (y ∷ ys) h = ground (arith, bytes_eq→eq xs ys)

u16_digits_range : (cs : List ℕ) (n m : ℕ) → n < 65536 → u16_digits cs n ≡ some m → m < 65536
unfolding u16_digits
u16_digits_range [] n m hn e = ground arith
u16_digits_range (c ∷ cs) n m hn e = ground (arith, u16_digits_range cs (n * 10 + (c - 48)) m)

-- A parsed number is a `u16`.
pub parse_u16_range : (s : List ℕ) (m : ℕ) → parse_u16 s ≡ some m → m < 65536
unfolding parse_u16
parse_u16_range [] m e = cc
parse_u16_range (c ∷ []) m e = ground (arith, u16_digits_range (c ∷ []) 0 m)
parse_u16_range (c ∷ d ∷ cs) m e =
    ground (arith, u16_digits_range (d ∷ cs) 0 m, u16_digits_range (c ∷ d ∷ cs) 0 m)
