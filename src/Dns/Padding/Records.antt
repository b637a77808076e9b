-- ===== src/Dns/Padding/Records.antt =====
-- dns.rs: the OPT record that `pad_query` appends or extends.
use nix_config.Common.{
  ℕ, ◌+◌, ◌-◌, ◌/◌, ◌%◌, ◌^◌, ◌≤◌, ◌<◌, ◌≡◌, ◌∙◌, List, ◌∷◌, ◌++◌, true, some, length, set, get_or,
  replicate, arith, get_or-append_left, get_or-append_right, get_or-set_self, get_or-set_ne,
  length-set, take, take-set, take-append_le,
}
use nix_config.Dns.{u16_of}
use nix_config.Dns.Padding.{has_edns0, padding_option, extend_opt, pad_query}

-- The 16-bit field at `i`.
abbrev pub u16_at : List ℕ → ℕ → ℕ
u16_at buf i = u16_of (get_or buf i 0) (get_or buf (i + 1) 0)

-- A 16-bit field that is written reads back, also in front of what is appended.
u16_at-set :
    (buf more : List ℕ) (i v : ℕ)
    → i + 2 ≤ length buf
    → u16_at (set (set buf i (v / 2 ^ 8)) (i + 1) (v % 2 ^ 8) ++ more) i ≡ v
u16_at-set buf more i v h =
    let once = set buf i (v / 2 ^ 8) in
    let both = set once (i + 1) (v % 2 ^ 8) in
    let size = length-set buf i (v / 2 ^ 8) in
    let size' = length-set once (i + 1) (v % 2 ^ 8) in
    omega (
      arith,
      get_or-append_left both more i 0 (omega arith),
      get_or-append_left both more (i + 1) 0 (omega arith),
      get_or-set_self once (i + 1) (v % 2 ^ 8) 0 (omega arith),
      get_or-set_ne once (i + 1) i (v % 2 ^ 8) 0 (omega arith),
      get_or-set_self buf i (v / 2 ^ 8) 0 (omega arith),
    )

-- The record that is appended, byte by byte.
abbrev opt_record : ℕ → List ℕ
opt_record pad =
    let rdlen = (4 + pad % 2 ^ 16) % 2 ^ 16 in
    0
    ∷ 0
    ∷ 41
    ∷ 16
    ∷ 0
    ∷ 0
    ∷ 0
    ∷ 0
    ∷ 0
    ∷ (rdlen / 256 % 256)
    ∷ (rdlen % 256)
    ∷ 0
    ∷ 12
    ∷ (pad % 2 ^ 16 / 256 % 256)
    ∷ (pad % 2 ^ 16 % 256)
    ∷ replicate pad 0

abbrev option_bytes : ℕ → List ℕ
option_bytes pad = 0 ∷ 12 ∷ (pad % 2 ^ 16 / 256 % 256) ∷ (pad % 2 ^ 16 % 256) ∷ replicate pad 0

-- A message that ends with an OPT record without options, padded to a block: the RDLENGTH of the record
-- grows by four and the padding, every byte before it stays, and behind it stands a padding option
-- (code 12) whose length is exactly what follows it.
pub pad_query_extends :
    (buf : List ℕ) (block_size : ℕ)
    → has_edns0 buf ≡ true
    → 15 ≤ length buf
    → length buf + 4 < block_size
    → block_size < 65536
    → u16_at buf (length buf - 2) + block_size < 65536 + length buf
    → let n = length buf in
      (buf' : List ℕ) × (pad_query buf block_size ≡ some (true, buf'))
      × (u16_at buf' (n - 2) + n ≡ u16_at buf (n - 2) + block_size)
      × (take (n - 2) buf' ≡ take (n - 2) buf)
      × (u16_at buf' n ≡ 12)
      × (n + 4 + u16_at buf' (n + 2) ≡ block_size)
unfolding pad_query extend_opt padding_option
pad_query_extends buf block_size opt h15 room small rdlen =
    let n = length buf in
    let pad = block_size - (n + 4) in
    let v = (u16_at buf (n - 2) + 4 + pad % 2 ^ 16) % 2 ^ 16 in
    let once = set buf (n - 2) (v / 2 ^ 8) in
    let front = set once (n - 2 + 1) (v % 2 ^ 8) in
    let size : length front ≡ n =
      length-set once (n - 2 + 1) (v % 2 ^ 8) ∙ length-set buf (n - 2) (v / 2 ^ 8) in
    let at = λ (i j : ℕ) (e : i ≡ length front + j).
      get_or-append_right front (option_bytes pad) i j 0 e in
    (
      front ++ option_bytes pad,
      rw opt (ground arith),
      omega (arith, u16_at-set buf (option_bytes pad) (n - 2) v (omega arith)),
      take-append_le (n - 2) front (option_bytes pad) (omega arith)
          ∙ take-set once (n - 2) (n - 2 + 1) (v % 2 ^ 8) (omega arith)
          ∙ take-set buf (n - 2) (n - 2) (v / 2 ^ 8) (omega arith),
      omega (arith, at n 0 (omega arith), at (n + 1) 1 (omega arith)),
      omega (arith, at (n + 2) 2 (omega arith), at (n + 2 + 1) 3 (omega arith)),
    )
