-- ===== src/Dns/Question/Labels.antt =====
-- dns.rs: `question_end` against the sequences of labels that RFC 1035 describes.
use nix_config.Common.{
  ℕ, zero, suc, ◌+◌, ◌-◌, ◌≤◌, ◌<◌, ◌≡◌, ◌↔◌, ◌⊎◌, refl, sym, ap, ◌∙◌, inl, inr, List, [], ◌∷◌,
  none, some, Option-cases, length, get_elem?, bits_7_6, All, IsByte, ok, arith,
}
use nix_config.Dns.Question.{question_loop, question_end}

-- From `pos` on the buffer holds labels of 1 to 63 bytes, all inside the buffer, and a root label;
-- `end` is the position behind the root label.
pub data Labels (buf : List ℕ) : ℕ → ℕ → Type 0 where
  root : {pos end : ℕ} → get_elem? buf pos ≡ some 0 → end ≡ pos + 1 → Labels buf pos end
  label :
      {pos next end : ℕ} (len : ℕ)
      → get_elem? buf pos ≡ some len
      → 0 < len
      → len < 64
      → next ≡ pos + (1 + len)
      → next ≤ length buf
      → Labels buf next end
      → Labels buf pos end

get_elem?-none : (buf : List ℕ) (i : ℕ) → length buf ≤ i → get_elem? buf i ≡ none
get_elem?-none [] i h = refl
get_elem?-none (x ∷ xs) zero h = absurd (omega arith)
get_elem?-none (x ∷ xs) (suc i) h = get_elem?-none xs i (omega arith)

get_elem?-IsByte : (buf : List ℕ) (i b : ℕ) → All IsByte buf → get_elem? buf i ≡ some b → IsByte b
get_elem?-IsByte [] i b h e = cc
get_elem?-IsByte (x ∷ xs) zero b (hx, h) e = ground arith
get_elem?-IsByte (x ∷ xs) (suc i) b (hx, h) e = get_elem?-IsByte xs i b h e

-- What a round that answers `ok` has seen.
round-ok :
    (rounds : ℕ) (buf : List ℕ) (pos len e : ℕ)
    → IsByte len
    → get_elem? buf pos ≡ some len
    → question_loop (suc rounds) buf pos ≡ ok e
    → ((len ≡ 0) × (e ≡ pos + 1 + 4))
      ⊎ ((0 < len)
          × (len < 64)
          × (pos + (1 + len) ≤ length buf)
          × (question_loop rounds buf (pos + (1 + len)) ≡ ok e))
unfolding question_loop
round-ok rounds buf pos len e hb found h = ground (arith, bits_7_6 len)

-- A successful loop found labels.
loop-Labels :
    (rounds : ℕ) (buf : List ℕ) (pos e : ℕ)
    → All IsByte buf
    → question_loop rounds buf pos ≡ ok e
    → (end : ℕ) × Labels buf pos end × (e ≡ end + 4)
loop-Labels zero buf pos e hb h = unfold question_loop in cc
loop-Labels (suc rounds) buf pos e hb h = elim (Option-cases (get_elem? buf pos)) [
  | inl gone ↦ unfold question_loop in cc (rw (gone, question_loop) at h)
  | inr (len, found) ↦
      elim (round-ok rounds buf pos len e (get_elem?-IsByte buf pos len hb found) found h) [
        | inl (zero_len, here) ↦ (pos + 1, root (found ∙ ap some zero_len) refl, here)
        | inr (lo, hi, room, more) ↦
            let (end, labels, e') = loop-Labels rounds buf (pos + (1 + len)) e hb more in
            (end, label len found lo hi refl room labels, e')
      ]
]

-- Labels are found, whatever the count of rounds, if it reaches the end of the buffer.
Labels-loop :
    (rounds : ℕ) (buf : List ℕ) (pos end : ℕ)
    → All IsByte buf
    → length buf ≤ pos + rounds
    → Labels buf pos end
    → question_loop rounds buf pos ≡ ok (end + 4)
unfolding question_loop
Labels-loop zero buf pos end hb h (root found e) = cc (found, get_elem?-none buf pos (omega arith))
Labels-loop zero buf pos end hb h (label len found lo hi n room l) =
    cc (found, get_elem?-none buf pos (omega arith))
Labels-loop (suc rounds) buf pos end hb h (root found e) = ground arith
Labels-loop (suc rounds) buf pos end hb h (label {next = next} len found lo hi n room l) =
    ground (arith, bits_7_6 len, Labels-loop rounds buf next end hb (omega arith) l)

-- On any message `question_end` answers `end + 4` exactly when labels of 1 to 63 bytes and a root label
-- stand from byte 12 on inside the message, where `end` is the position behind the root label.
pub question_end_iff :
    (buf : List ℕ) (e : ℕ)
    → All IsByte buf
    → (question_end buf ≡ ok e) ↔ ((end : ℕ) × Labels buf 12 end × (e ≡ end + 4))
unfolding question_end
question_end_iff buf e hb = (
  loop-Labels (length buf - 12) buf 12 e hb,
  λ (end, labels, e').
      Labels-loop (length buf - 12) buf 12 end hb (omega arith) labels ∙ ap ok (sym e'),
)
