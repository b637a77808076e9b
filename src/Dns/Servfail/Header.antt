-- ===== src/Dns/Servfail/Header.antt =====
-- dns.rs: the response that `build_servfail` writes.
use nix_config.Common.{
  ℕ, ◌+◌, ◌*◌, ◌/◌, ◌%◌, ◌≤◌, ◌<◌, ◌≡◌, refl, ap, List, [], ◌∷◌, ◌++◌, true, false, none, some, leb,
  ◌==◌, bit_and, bit_or, length, take, take-append_add, IsByte, all_below, all_below_sound, ==_iff,
  arith, Result, ok, err,
}
use nix_config.Dns.{DnsError}
use nix_config.Dns.Question.{question_end, question_end-lower}
use nix_config.Dns.Servfail.{kept_len, zero_counts, mark_servfail, build_servfail}

qr_table : all_below 256 (λ b. bit_or b 0x80 == b % 128 + 128) ≡ true
unfolding all_below
qr_table = refl

qr_set : (b : ℕ) → IsByte b → bit_or b 0x80 ≡ b % 128 + 128
qr_set b h = (==_iff _ _).0 (all_below_sound 256 (λ b. bit_or b 0x80 == b % 128 + 128) b qr_table h)

rcode_table :
    all_below 256 (λ b. bit_or (bit_or (bit_and b 0x70) 0x80) 0x02 == b / 16 % 8 * 16 + 130) ≡ true
unfolding all_below
rcode_table = refl

rcode_set : (b : ℕ) → IsByte b → bit_or (bit_or (bit_and b 0x70) 0x80) 0x02 ≡ b / 16 % 8 * 16 + 130
rcode_set b h = (==_iff _ _).0 (
    all_below_sound 256 (λ b. bit_or (bit_or (bit_and b 0x70) 0x80) 0x02 == b / 16 % 8 * 16 + 130) b
      rcode_table h)

-- The header of twelve bytes, and what `build_servfail` makes of it: the ID, the opcode, RD, the three
-- Z bits and QDCOUNT stay, QR and RA are set, RCODE is 2, and the other counts are 0.
abbrev pub servfail_header : ℕ → ℕ → ℕ → ℕ → ℕ → ℕ → List ℕ
servfail_header id0 id1 f0 f1 q0 q1 =
    id0 ∷ id1 ∷ (f0 % 128 + 128) ∷ (f1 / 16 % 8 * 16 + 130) ∷ q0 ∷ q1 ∷ 0 ∷ 0 ∷ 0 ∷ 0 ∷ 0 ∷ 0 ∷ []

abbrev header : ℕ → ℕ → ℕ → ℕ → ℕ → ℕ → ℕ → ℕ → ℕ → ℕ → ℕ → ℕ → List ℕ → List ℕ
header id0 id1 f0 f1 q0 q1 a0 a1 n0 n1 r0 r1 body =
    id0 ∷ id1 ∷ f0 ∷ f1 ∷ q0 ∷ q1 ∷ a0 ∷ a1 ∷ n0 ∷ n1 ∷ r0 ∷ r1 ∷ body

mark-header :
    (id0 id1 f0 f1 q0 q1 a0 a1 n0 n1 r0 r1 : ℕ) (body : List ℕ)
    → IsByte f0
    → IsByte f1
    → mark_servfail (header id0 id1 f0 f1 q0 q1 a0 a1 n0 n1 r0 r1 body)
      ≡ servfail_header id0 id1 f0 f1 q0 q1 ++ body
unfolding mark_servfail zero_counts
mark-header id0 id1 f0 f1 q0 q1 a0 a1 n0 n1 r0 r1 body h0 h1 = cc (qr_set f0 h0, rcode_set f1 h1)

kept-malformed :
    (q : List ℕ) (r : Result DnsError ℕ)
    → 12 ≤ length q
    → ((e : ℕ) → r ≡ ok e → length q < e)
    → kept_len q r ≡ some 12
unfolding kept_len
kept-malformed q (ok e) h bad = ground (arith, bad e refl)
kept-malformed q (err x) h bad = ground arith

kept-short :
    (q : List ℕ) (r : Result DnsError ℕ)
    → length q < 12
    → ((e : ℕ) → r ≡ ok e → 17 ≤ e)
    → kept_len q r ≡ none
unfolding kept_len
kept-short q (ok e) h lower = ground (arith, lower e refl)
kept-short q (err x) h lower = ground arith

-- A message that is shorter than a header gets no answer, and `out` stays as it was.
pub servfail_short : (q out : List ℕ) → length q < 12 → build_servfail q out ≡ (false, out)
unfolding build_servfail
servfail_short q out h =
    rw (kept-short q (question_end q) h (λ e. question_end-lower q e), build_servfail)

module _ (id0 id1 f0 f1 q0 q1 a0 a1 n0 n1 r0 r1 : ℕ) (body out : List ℕ) where
  abbrev query : List ℕ
  query = header id0 id1 f0 f1 q0 q1 a0 a1 n0 n1 r0 r1 body

  -- A query whose question section ends `k` bytes after the header, inside the message, is answered by
  -- its header with QR and RA set, RCODE 2, no answer, authority or additional record, and with the ID,
  -- opcode, AA, TC, RD, the Z, AD and CD bits and QDCOUNT of the query, and then by the question section
  -- as it stands in the query. What stood in `out` is gone.
  pub servfail_question :
      (k : ℕ)
      → IsByte f0
      → IsByte f1
      → question_end query ≡ ok (12 + k)
      → k ≤ length body
      → build_servfail query out ≡ (true, servfail_header id0 id1 f0 f1 q0 q1 ++ take k body)
  unfolding build_servfail kept_len
  servfail_question k h0 h1 e inside =
      let keep : leb (12 + k) (length query) ≡ true = ground arith in
      let kept : take (12 + k) query ≡ header id0 id1 f0 f1 q0 q1 a0 a1 n0 n1 r0 r1 (take k body) =
        take-append_add k (header id0 id1 f0 f1 q0 q1 a0 a1 n0 n1 r0 r1 []) body in
      rw (e, build_servfail, keep, kept)
        (ap (λ (t : List ℕ). (true, t))
          (mark-header id0 id1 f0 f1 q0 q1 a0 a1 n0 n1 r0 r1 (take k body) h0 h1))

  -- A query with a full header whose question section is malformed, or runs past the end of the message,
  -- is answered too, by the twelve bytes of the header alone, with the QDCOUNT of the query.
  pub servfail_malformed :
      IsByte f0
      → IsByte f1
      → ((e : ℕ) → question_end query ≡ ok e → length query < e)
      → build_servfail query out ≡ (true, servfail_header id0 id1 f0 f1 q0 q1)
  unfolding build_servfail
  servfail_malformed h0 h1 bad =
      rw (kept-malformed query (question_end query) (omega arith) bad, build_servfail)
        (ap (λ (t : List ℕ). (true, t))
          (mark-header id0 id1 f0 f1 q0 q1 a0 a1 n0 n1 r0 r1 [] h0 h1))
