-- ===== src/H3/Status.antt =====
-- h3.rs: `parse_status`. The iterator's calls are the rounds of `status_loop`.
use nix_config.Common.{
  ℕ, zero, suc, List, [], Option, none, some, if◌then◌else◌, length, bytes_eq, get_or, parse_u16,
  codes, Result, ok, err, ◌>>=◌, or_err,
}
use nix_config.Qpack.Error.{QpackError}
use nix_config.Qpack.Section.{FieldLine, Decoder, as_bytes, decode_value, new_decoder, next}
pub mod Fields

-- `s.parse().unwrap_or(0)`. Bytes that are no UTF-8 are read as "0"; no such bytes are a number, so
-- the result is 0 either way.
unfoldable pub parse_or_zero : List ℕ → ℕ
parse_or_zero v = elim (parse_u16 v) [ none ↦ 0 | some n ↦ n ]

-- Each line takes a byte at least. With no round left there are no bytes, and the iterator ends.
unfoldable pub status_loop : ℕ → Decoder → Result QpackError ℕ
status_loop zero d = ok 0
status_loop (suc rounds) d = elim (next d) [
  | none ↦ ok 0
  | some r ↦ elim r [
    | err e ↦ err e
    | ok (line, d') ↦
        let more = status_loop rounds d' in
        if bytes_eq (as_bytes line.name) (codes ":status")
        then (decode_value line.value >>= λ v. ok (parse_or_zero v))
        else more
  ]
]

unfoldable pub parse_status : List ℕ → Result QpackError ℕ
parse_status section = do dec ← new_decoder section; status_loop (length dec.buf) dec
