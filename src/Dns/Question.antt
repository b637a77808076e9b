-- ===== src/Dns/Question.antt =====
-- dns.rs: `question_end`. Each round of the loop moves `pos` by a byte at least, and with no round left
-- `pos` is at the end of the buffer, where `get` finds no byte.
pub mod Labels
use nix_config.Common.{
  ℕ, zero, suc, ◌+◌, ◌-◌, ◌≤◌, ◌≡◌, inl, inr, Option-cases, arith, List, none, some, if◌then◌else◌,
  ltb, not, ◌==◌, bit_and, length, get_elem?, Result, ok, err,
}
use nix_config.Dns.{DnsError, malformed_question, min_dns_len}

unfoldable pub question_loop : ℕ → List ℕ → ℕ → Result DnsError ℕ
question_loop zero buf pos = err malformed_question
question_loop (suc rounds) buf pos = elim (get_elem? buf pos) [
  | none ↦ err malformed_question
  | some len ↦
      let next = question_loop rounds buf (pos + (1 + len)) in
      if len == 0
      then ok (pos + 1 + 4)
      else if not (bit_and len 0xC0 == 0)
      then err malformed_question
      else if ltb (length buf) (pos + (1 + len))
      then err malformed_question
      else next
]

unfoldable pub question_end : List ℕ → Result DnsError ℕ
question_end buf = question_loop (length buf - min_dns_len) buf min_dns_len

question_loop-lower :
    (rounds : ℕ) (buf : List ℕ) (pos e : ℕ) → question_loop rounds buf pos ≡ ok e → pos + 5 ≤ e
unfolding question_loop
question_loop-lower zero buf pos e h = cc
question_loop-lower (suc rounds) buf pos e h = elim (Option-cases (get_elem? buf pos)) [
  | inl gone ↦ cc (rw (gone, question_loop) at h)
  | inr (len, found) ↦ ground (arith, question_loop-lower rounds buf (pos + (1 + len)) e)
]

-- The end of a question lies 17 bytes after the start of the message at least.
pub question_end-lower : (buf : List ℕ) (e : ℕ) → question_end buf ≡ ok e → 17 ≤ e
unfolding question_end
question_end-lower buf e h = omega (arith, question_loop-lower (length buf - 12) buf 12 e h)
