-- ===== src/Varint/RoundTrip.antt =====
-- h3.rs: what `varint_encode` writes, `varint_decode` reads.
use nix_config.Common.{
  ℕ, zero, suc, ◌+◌, ◌-◌, ◌*◌, ◌/◌, ◌%◌, ◌^◌, ◌≤◌, ◌<◌, ◌≡◌, refl, ◌∙◌, ap, inl, inr, ◌⊎◌, arith,
  List, [], ◌∷◌, ◌++◌, Option, none, some, if◌then◌else◌, ltb, bit_or, length, take, low_6,
  bit_or_low_high, bit_or_high_low, take-append_self, IsByte, All, length-append,
}
use native.Mathlib.Nat.{pow-suc}
use nix_config.Varint.{varint_bytes, shift_in, varint_decode}

-- `shift_in` without the bit operations.
abbrev be_value : ℕ → List ℕ → ℕ
be_value v [] = v
be_value v (b ∷ bytes) = be_value (v * 256 + b) bytes

shift_in_step :
    (v b : ℕ) (bytes : List ℕ)
    → v < 2 ^ 56
    → IsByte b
    → shift_in v (b ∷ bytes) ≡ shift_in (v * 256 + b) bytes
unfolding shift_in
shift_in_step v b bytes hv hb =
    ap (λ (t : ℕ). shift_in t bytes)
      (ap (λ (t : ℕ). bit_or t b) {x = v * 256 % 2 ^ 64} {y = v * 2 ^ 8} (omega arith)
        ∙ bit_or_high_low 8 b v hb)

mul_mono : (a b p : ℕ) → a ≤ b → a * p ≤ b * p
mul_mono a b p h = grind arith

pow_pos : (n : ℕ) → 1 ≤ 256 ^ n
pow_pos zero = omega arith
pow_pos (suc n) = omega (arith, pow_pos n, pow-suc 256 n)

-- While the value that is read stays below `2 ^ 62`, nothing is shifted out.
shift_in-be_value :
    (v : ℕ) (bytes : List ℕ)
    → All IsByte bytes
    → (v + 1) * 256 ^ length bytes ≤ 2 ^ 62
    → shift_in v bytes ≡ be_value v bytes
shift_in-be_value v [] hb h = unfold shift_in in refl
shift_in-be_value v (b ∷ bytes) (hb, hbs) h =
    shift_in_step v b bytes small hb ∙ shift_in-be_value (v * 256 + b) bytes hbs next
  where
    wide : (v + 1) * 256 * 256 ^ length bytes ≤ 2 ^ 62
    wide = omega (arith, ap (λ (t : ℕ). (v + 1) * t) (pow-suc 256 (length bytes)))

    small : v < 2 ^ 56
    small =
        omega
          (arith, wide, mul_mono 1 (256 ^ length bytes) ((v + 1) * 256) (pow_pos (length bytes)))

    next : (v * 256 + b + 1) * 256 ^ length bytes ≤ 2 ^ 62
    next =
        omega (
          arith,
          wide,
          mul_mono (v * 256 + b + 1) ((v + 1) * 256) (256 ^ length bytes) (omega arith),
        )

-- A first byte that announces `len` bytes, and those bytes.
decode_run :
    (first k : ℕ) (bytes rest : List ℕ)
    → IsByte first
    → All IsByte bytes
    → first / 2 ^ 6 ≡ k
    → length bytes + 1 ≡ 2 ^ k
    → (first % 64 + 1) * 256 ^ length bytes ≤ 2 ^ 62
    → varint_decode (first ∷ (bytes ++ rest)) ≡ some (be_value (first % 64) bytes, 2 ^ k)
unfolding varint_decode
decode_run first k bytes rest hf hb hk hl fits =
    rw (hk, ← hl, taken, low_6 first hf, shift_in-be_value (first % 64) bytes hb fits) enough
  where
    taken : take (length bytes + 1 - 1) (bytes ++ rest) ≡ bytes
    taken =
        ap (λ (t : ℕ). take t (bytes ++ rest)) {y = length bytes} (omega arith)
        ∙ take-append_self bytes rest

    result : Option (ℕ × ℕ)
    result = some (be_value (first % 64) bytes, length bytes + 1)

    enough :
        (if ltb (suc (length (bytes ++ rest))) (length bytes + 1) then none else result) ≡ result
    enough = ground (arith, length-append bytes rest)

abbrev tail_4 : ℕ → List ℕ
tail_4 v = (v / 256 ^ 2 % 256) ∷ (v / 256 % 256) ∷ (v % 256) ∷ []

abbrev tail_8 : ℕ → List ℕ
tail_8 v =
    (v / 256 ^ 6 % 256) ∷ (v / 256 ^ 5 % 256) ∷ (v / 256 ^ 4 % 256) ∷ (v / 256 ^ 3 % 256) ∷ tail_4 v

bytes_1 : (v : ℕ) → v < 2 ^ 6 → varint_bytes v ≡ v ∷ []
unfolding varint_bytes
bytes_1 v h = ground arith

bytes_2 : (v : ℕ) → 2 ^ 6 ≤ v → v < 2 ^ 14 → varint_bytes v ≡ (v / 256 + 64) ∷ (v % 256) ∷ []
unfolding varint_bytes
bytes_2 v lo hi = ground (arith, bit_or_low_high 14 (v % 2 ^ 16) 1 (omega arith))

bytes_4 : (v : ℕ) → 2 ^ 14 ≤ v → v < 2 ^ 30 → varint_bytes v ≡ (v / 256 ^ 3 + 128) ∷ tail_4 v
unfolding varint_bytes
bytes_4 v lo hi = ground (arith, bit_or_low_high 30 (v % 2 ^ 32) 2 (omega arith))

-- The eight-byte form, for values that fit the sixty-two bits.
bytes_8 : (v : ℕ) → 2 ^ 30 ≤ v → v < 2 ^ 62 → varint_bytes v ≡ (v / 256 ^ 7 + 192) ∷ tail_8 v
unfolding varint_bytes
bytes_8 v lo hi = ground (arith, bit_or_low_high 62 v 3 hi)

-- The four ranges of a value that has an encoding.
varint_cases :
    (v : ℕ)
    → v < 2 ^ 62
    → (v < 2 ^ 6)
      ⊎ (((2 ^ 6 ≤ v) × (v < 2 ^ 14))
          ⊎ (((2 ^ 14 ≤ v) × (v < 2 ^ 30)) ⊎ ((2 ^ 30 ≤ v) × (v < 2 ^ 62))))
varint_cases v h = grind arith

-- A first byte and a tail that add up to `v`.
shifted_value :
    (first k v : ℕ) (bytes rest : List ℕ)
    → IsByte first
    → All IsByte bytes
    → first / 2 ^ 6 ≡ k
    → length bytes + 1 ≡ 2 ^ k
    → (first % 64 + 1) * 256 ^ length bytes ≤ 2 ^ 62
    → be_value (first % 64) bytes ≡ v
    → varint_decode (first ∷ (bytes ++ rest)) ≡ some (v, 2 ^ k)
shifted_value first k v bytes rest hf hb hk hl fits e =
    decode_run first k bytes rest hf hb hk hl fits ∙ ap (λ (t : ℕ). some (t, 2 ^ k)) e

decode_4 :
    (v : ℕ) (rest : List ℕ)
    → 2 ^ 14 ≤ v
    → v < 2 ^ 30
    → varint_decode ((v / 256 ^ 3 + 128) ∷ (tail_4 v ++ rest)) ≡ some (v, 4)
decode_4 v rest lo hi =
    shifted_value (v / 256 ^ 3 + 128) 2 v (tail_4 v) rest (omega arith) (omega arith) (omega arith)
      refl (omega arith) (omega arith)

decode_8 :
    (v : ℕ) (rest : List ℕ)
    → 2 ^ 30 ≤ v
    → v < 2 ^ 62
    → varint_decode ((v / 256 ^ 7 + 192) ∷ (tail_8 v ++ rest)) ≡ some (v, 8)
decode_8 v rest lo hi =
    shifted_value (v / 256 ^ 7 + 192) 3 v (tail_8 v) rest (omega arith) (omega arith) (omega arith)
      refl (omega arith) (omega arith)

-- `varint_decode` reads a value below 2^62 back from its encoding, whatever follows, and takes
-- exactly the bytes that `varint_encode` wrote.
pub decode-varint_bytes :
    (v : ℕ) (rest : List ℕ)
    → v < 2 ^ 62
    → varint_decode (varint_bytes v ++ rest) ≡ some (v, length (varint_bytes v))
decode-varint_bytes v rest h = elim (varint_cases v h) [
  | inl a ↦
      rw (bytes_1 v a) (
        shifted_value v 0 v [] rest (omega arith) tt (omega arith) refl (omega arith) (omega arith))
  | inr (inl (a, b)) ↦ rw (bytes_2 v a b) (
      shifted_value (v / 256 + 64) 1 v ((v % 256) ∷ []) rest (omega arith) (omega arith)
        (omega arith) refl (omega arith) (omega arith))
  | inr (inr (inl (a, b))) ↦ rw (bytes_4 v a b) (decode_4 v rest a b)
  | inr (inr (inr (a, b))) ↦ rw (bytes_8 v a b) (decode_8 v rest a b)
]
