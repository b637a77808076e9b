-- ===== src/Base64url/Decode.antt =====
-- base64url.rs: an encoded text has the announced length, holds only symbols that a URL may hold, and
-- decodes to the input.
use nix_config.Common.{
  ℕ, ◌+◌, ◌*◌, ◌/◌, ◌%◌, ◌^◌, ◌≤◌, ◌<◌, ◌≡◌, refl, ap, ◌∙◌, List, [], ◌∷◌, ◌++◌, none, some, Bool,
  true, if◌then◌else◌, leb, ◌||◌, ◌==◌, ==_iff, ◌&&◌, bit_or, length, drop, get_or, All, IsByte,
  arith, all_below, all_below_sound, bit_and_mask, bit_or_high_low,
}
use nix_config.Base64url.{alphabet, encoded_len, symbol, symbols, encode_into}

-- The six-bit groups of the input, first bits first, in plain arithmetic.
sextets : List ℕ → List ℕ
sextets (a ∷ b ∷ c ∷ rest) =
    (a / 4) ∷ (a % 4 * 16 + b / 16) ∷ (b % 16 * 4 + c / 64) ∷ (c % 64) ∷ sextets rest
sextets (a ∷ b ∷ []) = (a / 4) ∷ (a % 4 * 16 + b / 16) ∷ (b % 16 * 4) ∷ []
sextets (a ∷ []) = (a / 4) ∷ (a % 4 * 16) ∷ []
sextets [] = []

unfoldable letter : ℕ → ℕ
letter i = get_or alphabet i 0

abbrev letters : List ℕ → List ℕ
letters [] = []
letters (i ∷ is) = letter i ∷ letters is

symbol-letter : (n shift : ℕ) → symbol n shift ≡ letter (n / 2 ^ shift % 64)
unfolding symbol letter
symbol-letter n shift = ap (λ (t : ℕ). get_or alphabet t 0) (bit_and_mask 6 (n / 2 ^ shift))

-- The 24 bits of a chunk.
chunk_value :
    (a b c : ℕ)
    → IsByte b
    → IsByte c
    → bit_or (bit_or (a * 2 ^ 16) (b * 2 ^ 8)) c ≡ a * 2 ^ 16 + b * 2 ^ 8 + c
chunk_value a b c hb hc =
    let high = bit_or_high_low 16 (b * 2 ^ 8) a (omega arith) in
    let shifted : a * 2 ^ 16 + b * 2 ^ 8 ≡ (a * 2 ^ 8 + b) * 2 ^ 8 = omega arith in
    rw (high, shifted) (bit_or_high_low 8 c (a * 2 ^ 8 + b) hc)

pair_value : (a b : ℕ) → IsByte b → bit_or (a * 2 ^ 16) (b * 2 ^ 8) ≡ a * 2 ^ 16 + b * 2 ^ 8
pair_value a b hb = bit_or_high_low 16 (b * 2 ^ 8) a (omega arith)

-- A symbol whose index is known.
symbol_at : (n shift i : ℕ) → n / 2 ^ shift % 64 ≡ i → symbol n shift ≡ letter i
symbol_at n shift i e = symbol-letter n shift ∙ ap letter e

symbols-letters : (input : List ℕ) → All IsByte input → symbols input ≡ letters (sextets input)
unfolding symbols sextets
symbols-letters [] h = refl
symbols-letters (a ∷ []) (ha, _) = cc (
  symbol_at (a * 2 ^ 16) 18 (a / 4) (omega arith),
  symbol_at (a * 2 ^ 16) 12 (a % 4 * 16) (omega arith),
)
symbols-letters (a ∷ b ∷ []) (ha, (hb, _)) =
    let n : ℕ = a * 2 ^ 16 + b * 2 ^ 8 in
    rw (pair_value a b hb) (
      cc (
        symbol_at n 18 (a / 4) (omega arith),
        symbol_at n 12 (a % 4 * 16 + b / 16) (omega arith),
        symbol_at n 6 (b % 16 * 4) (omega arith),
      ))
symbols-letters (a ∷ b ∷ c ∷ rest) (ha, (hb, (hc, h))) =
    let n : ℕ = a * 2 ^ 16 + b * 2 ^ 8 + c in
    rw (chunk_value a b c hb hc) (
      cc (
        symbol_at n 18 (a / 4) (omega arith),
        symbol_at n 12 (a % 4 * 16 + b / 16) (omega arith),
        symbol_at n 6 (b % 16 * 4 + c / 64) (omega arith),
        symbol_at n 0 (c % 64) (omega arith),
        symbols-letters rest h,
      ))

-- A reference decoder: the index of each symbol, and the bytes of the groups.
index_of : List ℕ → ℕ → ℕ → ℕ
index_of [] i c = 64
index_of (x ∷ xs) i c = if x == c then i else index_of xs (i + 1) c

indices : List ℕ → List ℕ
unfolding index_of alphabet
indices [] = []
indices (c ∷ cs) = index_of alphabet 0 c ∷ indices cs

regroup : List ℕ → List ℕ
regroup (w ∷ x ∷ y ∷ z ∷ rest) =
    (w * 4 + x / 16) ∷ (x % 16 * 16 + y / 4) ∷ (y % 4 * 64 + z) ∷ regroup rest
regroup (w ∷ x ∷ y ∷ []) = (w * 4 + x / 16) ∷ (x % 16 * 16 + y / 4) ∷ []
regroup (w ∷ x ∷ []) = (w * 4 + x / 16) ∷ []
regroup (w ∷ []) = []
regroup [] = []

unfoldable pub decode64 : List ℕ → List ℕ
unfolding indices regroup
decode64 text = regroup (indices text)

index_table : all_below 64 (λ i. index_of alphabet 0 (letter i) == i) ≡ true
unfolding index_of letter alphabet all_below
index_table = refl

index-letter : (i : ℕ) → i < 64 → index_of alphabet 0 (letter i) ≡ i
index-letter i h =
    (==_iff _ i).0 (all_below_sound 64 (λ i. index_of alphabet 0 (letter i) == i) i index_table h)

indices-letters : (is : List ℕ) → All (λ i. i < 64) is → indices (letters is) ≡ is
unfolding indices
indices-letters [] h = refl
indices-letters (i ∷ is) (hi, h) = cc (index-letter i hi, indices-letters is h)

sextets-range : (input : List ℕ) → All IsByte input → All (λ i. i < 64) (sextets input)
unfolding sextets
sextets-range [] h = tt
sextets-range (a ∷ []) h = omega arith
sextets-range (a ∷ b ∷ []) h = omega arith
sextets-range (a ∷ b ∷ c ∷ rest) (ha, (hb, (hc, h))) =
    (omega arith, (omega arith, (omega arith, (omega arith, sextets-range rest h))))

regroup-sextets : (input : List ℕ) → All IsByte input → regroup (sextets input) ≡ input
unfolding sextets regroup
regroup-sextets [] h = refl
regroup-sextets (a ∷ []) h = ground arith
regroup-sextets (a ∷ b ∷ []) h = ground arith
regroup-sextets (a ∷ b ∷ c ∷ rest) (ha, (hb, (hc, h))) = ground (arith, regroup-sextets rest h)

length-symbols : (input : List ℕ) → length (symbols input) ≡ encoded_len (length input)
unfolding symbols encoded_len
length-symbols [] = refl
length-symbols (a ∷ []) = refl
length-symbols (a ∷ b ∷ []) = refl
length-symbols (a ∷ b ∷ c ∷ rest) = ground (arith, length-symbols rest)

-- Into a buffer of at least `encoded_len` bytes, `encode_into` writes exactly `encoded_len` bytes, leaves
-- the rest of the buffer alone, and what it wrote decodes, symbol by symbol, to the input.
pub decode-encode_into :
    (input out : List ℕ)
    → All IsByte input
    → encoded_len (length input) ≤ length out
    → (written : List ℕ) × (encode_into input out
        ≡ some (written ++ drop (encoded_len (length input)) out, encoded_len (length input)))
      × (length written ≡ encoded_len (length input))
      × (decode64 written ≡ input)
unfolding encode_into decode64
decode-encode_into input out h room = (
  symbols input,
  rw (length-symbols input) (ground arith),
  length-symbols input,
  rw (symbols-letters input h, indices-letters (sextets input) (sextets-range input h))
      (regroup-sextets input h),
)

-- A buffer that is shorter than `encoded_len` makes `encode_into` panic.
pub encode_into_short :
    (input out : List ℕ) → length out < encoded_len (length input) → encode_into input out ≡ none
unfolding encode_into
encode_into_short input out h = rw (length-symbols input) (ground arith)

-- A letter, a digit, `-` or `_`.
abbrev pub is_url_safe : ℕ → Bool
is_url_safe c =
    (leb b'A' c && leb c b'Z')
    || (leb b'a' c && leb c b'z')
    || (leb b'0' c && leb c b'9')
    || (c == b'-')
    || (c == b'_')

letter_table : all_below 64 (λ i. is_url_safe (letter i)) ≡ true
unfolding letter alphabet all_below
letter_table = refl

letters_safe : (is : List ℕ) → All (λ i. i < 64) is → All (λ c. is_url_safe c ≡ true) (letters is)
letters_safe [] h = tt
letters_safe (i ∷ is) (hi, h) =
    (all_below_sound 64 (λ i. is_url_safe (letter i)) i letter_table hi, letters_safe is h)

-- Every symbol that is written is a letter, a digit, `-` or `_`: none needs escaping in a query.
pub symbols-url_safe :
    (input : List ℕ) → All IsByte input → All (λ c. is_url_safe c ≡ true) (symbols input)
symbols-url_safe input h =
    rw (symbols-letters input h) (letters_safe (sextets input) (sextets-range input h))
