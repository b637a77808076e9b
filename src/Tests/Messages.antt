-- ===== src/Tests/Messages.antt =====
-- dns.rs and base64url.rs at concrete inputs.
use nix_config.Common.{
  ℕ, ◌+◌, ◌≤◌, ◌<◌, ◌≡◌, ◌↔◌, refl, List, [], ◌∷◌, ◌++◌, some, ok, err, codes, arith, true, false,
  length, drop, take, get_or,
}
use nix_config.Base64url.{alphabet, symbols, symbol, encode_into, encoded_len}
use nix_config.Base64url.Decode.{decode64, decode-encode_into}
use nix_config.Dns.{too_short}
use nix_config.Dns.Validate.{validate_query, validate_query_iff}
use nix_config.Dns.Question.{question_loop, question_end}
use nix_config.Dns.Question.Labels.{Labels, question_end_iff}
use nix_config.Dns.Servfail.{build_servfail}
use nix_config.Dns.Servfail.Header.{servfail_header, servfail_question}
use nix_config.Dns.Padding.{has_edns0, pad_query}

foobar : symbols (codes "fooba") ≡ codes "Zm9vYmE"
unfolding symbols symbol alphabet
foobar = refl

abbrev eight_zeros : List ℕ
eight_zeros = 0 ∷ 0 ∷ 0 ∷ 0 ∷ 0 ∷ 0 ∷ 0 ∷ 0 ∷ []

decode-encode_into_example :
    (written : List ℕ) × (encode_into (codes "fooba") eight_zeros
      ≡ some (written ++ drop (encoded_len 5) eight_zeros, encoded_len 5))
    × (length written ≡ encoded_len 5)
    × (decode64 written ≡ codes "fooba")
unfolding encoded_len
decode-encode_into_example =
    decode-encode_into (codes "fooba") eight_zeros (omega arith) (omega arith)

-- A query for the A record of `ab.c`.
abbrev sample_body : List ℕ
sample_body = 2 ∷ 97 ∷ 98 ∷ 1 ∷ 99 ∷ 0 ∷ 0 ∷ 1 ∷ 0 ∷ 1 ∷ []

abbrev sample_query : List ℕ
sample_query = 0xAB ∷ 0xCD ∷ 1 ∷ 0 ∷ 0 ∷ 1 ∷ 0 ∷ 0 ∷ 0 ∷ 0 ∷ 0 ∷ 0 ∷ sample_body

abbrev pointer_query : List ℕ
pointer_query = 0xAB ∷ 0xCD ∷ 1 ∷ 0 ∷ 0 ∷ 1 ∷ 0 ∷ 0 ∷ 0 ∷ 0 ∷ 0 ∷ 0 ∷ 0xC0 ∷ 4 ∷ []

sample_end : question_end sample_query ≡ ok 22
unfolding question_end question_loop
sample_end = refl

validate_query_iff_example : (validate_query sample_query ≡ ok tt) ↔ (
    (12 ≤ length sample_query)
    × (get_or sample_query 2 0 < 128)
    × (get_or sample_query 4 0 ≡ 0)
    × (get_or sample_query 5 0 ≡ 1))
validate_query_iff_example = validate_query_iff sample_query (omega arith)

short_refused : validate_query (7 ∷ []) ≡ err (too_short 1)
unfolding validate_query
short_refused = refl

question_end_iff_example :
    (question_end sample_query ≡ ok 22) ↔ ((end : ℕ) × Labels sample_query 12 end × (22 ≡ end + 4))
question_end_iff_example = question_end_iff sample_query 22 (omega arith)

servfail_question_example :
    build_servfail sample_query (9 ∷ [])
    ≡ (true, servfail_header 0xAB 0xCD 1 0 0 1 ++ take 10 sample_body)
servfail_question_example =
    servfail_question 0xAB 0xCD 1 0 0 1 0 0 0 0 0 0 sample_body (9 ∷ []) 10 (omega arith)
      (omega arith) sample_end (omega arith)

pointer_refused : (e : ℕ) → question_end pointer_query ≡ ok e → length pointer_query < e
unfolding question_end question_loop
pointer_refused e h = cc

abbrev opt_query : List ℕ
opt_query = sample_query ++ (0 ∷ 0 ∷ 41 ∷ 16 ∷ 0 ∷ 0 ∷ 0 ∷ 0 ∷ 0 ∷ 0 ∷ 0 ∷ [])

with_opt : has_edns0 opt_query ≡ true
unfolding has_edns0
with_opt = refl

unpadded : pad_query sample_query 16 ≡ some (false, sample_query)
unfolding pad_query has_edns0
unpadded = refl
