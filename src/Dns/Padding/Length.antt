-- ===== src/Dns/Padding/Length.antt =====
-- dns.rs: what `pad_query` does to the length of a message and to its records.
use nix_config.Common.{
  ℕ, ◌+◌, ◌-◌, ◌≤◌, ◌<◌, ◌≡◌, ◌↔◌, ◌∙◌, List, Bool, true, false, none, some, ◌⊎◌, if◌then◌else◌,
  length, length-append, length-set, length-replicate, set, arith,
}
use nix_config.Dns.Padding.{has_edns0, padding_option, extend_opt, append_opt, pad_query}

length-padding_option : (n : ℕ) → length (padding_option n) ≡ n + 4
unfolding padding_option
length-padding_option n = omega (arith, length-replicate {A = ℕ} n 0)

length-set_two : (buf : List ℕ) (i j v w : ℕ) → length (set (set buf i v) j w) ≡ length buf
length-set_two buf i j v w = length-set (set buf i v) j w ∙ length-set buf i v

length-extend_opt : (buf : List ℕ) (n : ℕ) → length (extend_opt buf n) ≡ length buf + n + 4
unfolding extend_opt
length-extend_opt buf n =
    rw (length-append, length-set_two buf) (omega (arith, length-padding_option n))

length-append_opt : (buf : List ℕ) (n : ℕ) → length (append_opt buf n) ≡ length buf + n + 15
unfolding append_opt
length-append_opt buf n =
    rw (length-append, length-set_two buf) (omega (arith, length-padding_option n))

-- When it pads, `pad_query` makes the message exactly one block long; when it does not, the message is
-- unchanged, and the block is 0, or too short for the message with a padding option.
pub pad_query-length :
    (buf : List ℕ) (block_size : ℕ) (padded : Bool) (buf' : List ℕ)
    → pad_query buf block_size ≡ some (padded, buf')
    → ((padded ≡ true) × (length buf' ≡ block_size) × (length buf < block_size))
      ⊎ ((padded ≡ false)
          × (buf' ≡ buf)
          × (block_size ≤ length buf + (if has_edns0 buf then 4 else 15)))
unfolding pad_query
pad_query-length buf block_size padded buf' e = ground (
  arith,
  length-extend_opt buf (block_size - (length buf + 4)),
  length-append_opt buf (block_size - (length buf + (11 + 4))),
)

-- `pad_query` panics exactly on a message shorter than a header that the block has room for.
pub pad_query_panics :
    (buf : List ℕ) (block_size : ℕ)
    → (pad_query buf block_size ≡ none) ↔ ((length buf < 12) × (length buf + 15 < block_size))
unfolding pad_query has_edns0
pad_query_panics buf block_size = ((λ e. ground arith), (λ e. ground arith))
