-- ===== src/Qpack/PrefixInt/RoundTrip.antt =====
-- qpack.rs: `read_prefix_int` reads back what `write_prefix_int` wrote.
use native.Mathlib.Nat.{div-add-mod, mod-eq_of_lt, mul-add-mod_self_right, pow-suc}
use native.Mathlib.Numerals.{towards_suc}
use nix_config.Common.{
  ℕ, zero, suc, ◌+◌, ◌-◌, ◌*◌, ◌/◌, ◌%◌, ◌^◌, ◌≤◌, ◌<◌, ◌≡◌, ap, ◌∙◌, inl, inr, List, [], ◌∷◌, ◌++◌,
  ltb, bit_and, bit_or, Acc, ok, arith, low_bits, prefix_range, Bool-cases, lt→ltb, ltb→lt, lt_wf,
  bit_or_high_low, low_7, bit_7, set_bit_7,
}
use nix_config.Qpack.PrefixInt.{groups, prefix_int_bytes, read_loop, read_prefix_int}

low_group : (v : ℕ) → bit_and (v % 2 ^ 8) 0x7F ≡ v % 128
low_group v = low_7 (v % 2 ^ 8) (omega arith) ∙ omega arith

inner_group : (v : ℕ) → bit_or (bit_and (v % 2 ^ 8) 0x7F) 0x80 ≡ v % 128 + 128
inner_group v = ap (λ (t : ℕ). bit_or t 0x80) (low_group v) ∙ set_bit_7 (v % 128) (omega arith)

mul_mono : (a b p : ℕ) → a ≤ b → a * p ≤ b * p
mul_mono a b p h = grind arith

shift_seven : (s : ℕ) → 2 ^ (s + 7) ≡ 128 * 2 ^ s
shift_seven s = simp towards_suc (omega arith)

-- The lowest seven bits of `v` and the rest, at bit `s`.
split_at : (v s : ℕ) → v * 2 ^ s ≡ v % 128 * 2 ^ s + v / 128 * 2 ^ (s + 7)
split_at v s = omega (
  arith,
  ap (λ (t : ℕ). t * 2 ^ s) (div-add-mod v 128),
  ap (λ (t : ℕ). v / 128 * t) (shift_seven s),
)

-- One round on a last byte, and on a byte that another follows.
last_round :
    (b value shift : ℕ) (rest : List ℕ)
    → b < 128
    → value + b * 2 ^ shift < 2 ^ 64
    → read_loop (b ∷ rest) value shift ≡ ok (value + b * 2 ^ shift, rest)
unfolding read_loop
last_round b value shift rest hb fits = ground (arith, low_7 b, bit_7 b)

inner_round :
    (g value shift : ℕ) (rest : List ℕ)
    → g < 128
    → shift ≤ 49
    → value + g * 2 ^ shift < 2 ^ 64
    → read_loop ((g + 128) ∷ rest) value shift ≡ read_loop rest (value + g * 2 ^ shift) (shift + 7)
unfolding read_loop
inner_round g value shift rest hg hs fits = ground (arith, low_7 (g + 128), bit_7 (g + 128))

-- `v` is what is still to be read, at bit `shift`; `k + 1` groups are enough for it.
read_loop-groups :
    (k v value shift : ℕ) (rest : List ℕ) (w : Acc ◌<◌ v)
    → v < 128 ^ suc k
    → shift + 7 * k ≤ 56
    → value + v * 2 ^ shift < 2 ^ 64
    → read_loop (groups v w ++ rest) value shift ≡ ok (value + v * 2 ^ shift, rest)
unfolding groups
read_loop-groups zero v value shift rest (Acc.intro _ smaller) hv hk fits =
    ground (arith, last_round v value shift rest)
read_loop-groups (suc k) v value shift rest (Acc.intro _ smaller) hv hk fits = grind (
  arith,
  last_round v value shift rest,
  inner_group v,
  split_at v shift,
  λ (w : Acc ◌<◌ (v / 2 ^ 7)). inner_round (v % 128) value shift (groups (v / 2 ^ 7) w ++ rest),
  λ (w : Acc ◌<◌ (v / 2 ^ 7)).
      read_loop-groups k (v / 2 ^ 7) (value + v % 128 * 2 ^ shift) (shift + 7) rest w
        (omega (arith, pow-suc 128 (suc k))),
)

-- A first byte whose high bits are `c` and whose prefix holds `low`.
first_or :
    (p c low : ℕ)
    → p ≤ 8
    → c * 2 ^ p + low < 256
    → low < 2 ^ p
    → bit_or (c * 2 ^ p) (low % 2 ^ 8) ≡ c * 2 ^ p + low
first_or p c low hp hb hl =
    ap (bit_or (c * 2 ^ p)) {y = low} (omega arith) ∙ bit_or_high_low p low c hl

first_byte :
    (p c low : ℕ)
    → p ≤ 8
    → c * 2 ^ p + low < 256
    → low < 2 ^ p
    → bit_and (bit_or (c * 2 ^ p) (low % 2 ^ 8)) (2 ^ p - 1) ≡ low
first_byte p c low hp hb hl =
    rw (first_or p c low hp hb hl, low_bits p (c * 2 ^ p + low) hp hb)
      (mul-add-mod_self_right c (2 ^ p) low ∙ mod-eq_of_lt hl)

inline_read :
    (p c value : ℕ) (rest : List ℕ)
    → p ≤ 8
    → (c + 1) * 2 ^ p ≤ 256
    → value < 2 ^ p - 1
    → read_prefix_int (prefix_int_bytes p (c * 2 ^ p) value ++ rest) p ≡ ok (value, rest)
unfolding prefix_int_bytes read_prefix_int
inline_read p c value rest hp hc hv =
    rw (lt→ltb value (2 ^ p - 1) hv)
      (ground (arith, first_byte p c value hp (omega arith) (omega arith)))

long_read :
    (p c value : ℕ) (rest : List ℕ)
    → 1 ≤ p
    → p ≤ 8
    → (c + 1) * 2 ^ p ≤ 256
    → 2 ^ p - 1 ≤ value
    → value < 2 ^ 63
    → read_prefix_int (prefix_int_bytes p (c * 2 ^ p) value ++ rest) p ≡ ok (value, rest)
unfolding prefix_int_bytes read_prefix_int
long_read p c value rest lo hi hc hm hv =
    let range = prefix_range p lo hi in
    ground (
      arith,
      first_byte p c (2 ^ p - 1) hi (omega arith) (omega arith),
      read_loop-groups 8 (value - (2 ^ p - 1)) (2 ^ p - 1) 0 rest (lt_wf.apply _) (omega arith)
          (omega arith) (omega arith),
    )

-- `read_prefix_int` reads a value below 2^63 back from the bytes that `write_prefix_int` appends, and
-- leaves what follows; the prefix has 1 to 8 bits, and the bits of the first byte above it are the
-- caller's.
pub read-prefix_int_bytes :
    (p c value : ℕ) (rest : List ℕ)
    → 1 ≤ p
    → p ≤ 8
    → (c + 1) * 2 ^ p ≤ 256
    → value < 2 ^ 63
    → read_prefix_int (prefix_int_bytes p (c * 2 ^ p) value ++ rest) p ≡ ok (value, rest)
read-prefix_int_bytes p c value rest lo hi hc hv = elim (Bool-cases (ltb value (2 ^ p - 1))) [
  | inl small ↦ inline_read p c value rest hi hc (ltb→lt value (2 ^ p - 1) small)
  | inr large ↦ long_read p c value rest lo hi hc (ground arith) hv
]

-- The first byte that is written keeps the caller's bits above the prefix.
pub prefix_int_bytes-head :
    (p c value : ℕ)
    → 1 ≤ p
    → p ≤ 8
    → (c + 1) * 2 ^ p ≤ 256
    → (b : ℕ) × (rest : List ℕ) × (prefix_int_bytes p (c * 2 ^ p) value ≡ b ∷ rest)
      × (c * 2 ^ p ≤ b)
      × (b < (c + 1) * 2 ^ p)
unfolding prefix_int_bytes
prefix_int_bytes-head p c value lo hi hc =
    let range = prefix_range p lo hi in
    let m : ℕ = 2 ^ p - 1 in
    elim (Bool-cases (ltb value m)) [
      | inl small ↦
          let v = ltb→lt value m small in
          let e = first_or p c value hi (omega arith) (omega arith) in
          (bit_or (c * 2 ^ p) (value % 2 ^ 8), [], rw small, omega (arith, e), omega (arith, e))
      | inr large ↦
          let e = first_or p c m hi (omega arith) (omega arith) in
          (
            bit_or (c * 2 ^ p) (m % 2 ^ 8),
            groups (value - m) (lt_wf.apply (value - m)),
            rw large,
            omega (arith, e),
            omega (arith, e),
          )
    ]
