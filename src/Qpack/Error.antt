-- ===== src/Qpack/Error.antt =====
-- qpack.rs: the two error types.
use nix_config.Common.{ℕ}

pub data HuffmanError : Type 0 where
  bad_padding eos_in_string no_match : HuffmanError

pub data QpackError : Type 0 where
  truncated dynamic_table : QpackError
  bad_index : ℕ → QpackError
  huffman : HuffmanError → QpackError
