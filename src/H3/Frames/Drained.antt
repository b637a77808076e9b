-- ===== src/H3/Frames/Drained.antt =====
-- h3.rs: what `next_frame` takes from the buffer, and that the loop over frames ends because no
-- complete frame is left.
use nix_config.Common.{
  ℕ, zero, suc, ◌+◌, ◌≤◌, ◌≡◌, inl, inr, List, ◌++◌, none, some, length, drop, Option-cases, arith,
  length-append, length-drop, drop-append_le, take-append_le,
}
use nix_config.Varint.Decode.{decode_takes, decode-append}
use nix_config.Varint.{varint_decode}
use nix_config.H3.Frames.{FrameParser, take_frame, next_frame, frames_loop, for_frames}

take_frame_takes :
    (buf : List ℕ) (ty n1 len n2 : ℕ) (frame : ℕ × List ℕ) (p : FrameParser)
    → 1 ≤ n1
    → 1 ≤ n2
    → take_frame buf (ty, n1) (len, n2) ≡ some (frame, p)
    → length p.buf + 2 ≤ length buf
unfolding take_frame
take_frame_takes buf ty n1 len n2 frame p h1 h2 e = ground (arith, length-drop (n1 + n2 + len) buf)

take_frame-append :
    (buf more : List ℕ) (ty n1 len n2 : ℕ) (frame : ℕ × List ℕ) (p : FrameParser)
    → take_frame buf (ty, n1) (len, n2) ≡ some (frame, p)
    → take_frame (buf ++ more) (ty, n1) (len, n2) ≡ some (frame, record { buf = p.buf ++ more })
unfolding take_frame
take_frame-append buf more ty n1 len n2 frame p e = ground (
  arith,
  length-append buf more,
  length-drop (n1 + n2) buf,
  drop-append_le (n1 + n2 + len) buf more,
  drop-append_le (n1 + n2) buf more,
  take-append_le len (drop (n1 + n2) buf) more,
)

-- A frame that is popped takes two bytes at least.
pub next_frame_takes :
    (p p' : FrameParser) (frame : ℕ × List ℕ)
    → next_frame p ≡ some (frame, p')
    → length p'.buf + 2 ≤ length p.buf
unfolding next_frame
next_frame_takes p p' frame e = elim (Option-cases (varint_decode p.buf)) [
  | inl none1 ↦ cc (rw (none1, next_frame) at e)
  | inr ((ty, n1), some1) ↦ elim (Option-cases (varint_decode (drop n1 p.buf))) [
    | inl none2 ↦ cc (rw (some1, next_frame, none2) at e)
    | inr ((len, n2), some2) ↦
        take_frame_takes p.buf ty n1 len n2 frame p' (decode_takes _ ty n1 some1).0
          (decode_takes _ len n2 some2).0 (rw (some1, next_frame, some2) at e)
  ]
]

-- Bytes that arrive later do not change a frame that is complete.
pub next_frame-append :
    (p p' : FrameParser) (frame : ℕ × List ℕ) (more : List ℕ)
    → next_frame p ≡ some (frame, p')
    → next_frame (record { buf = p.buf ++ more }) ≡ some (frame, record { buf = p'.buf ++ more })
unfolding next_frame
next_frame-append p p' frame more e = elim (Option-cases (varint_decode p.buf)) [
  | inl none1 ↦ cc (rw (none1, next_frame) at e)
  | inr ((ty, n1), some1) ↦ elim (Option-cases (varint_decode (drop n1 p.buf))) [
    | inl none2 ↦ cc (rw (some1, next_frame, none2) at e)
    | inr ((len, n2), some2) ↦
        rw
          (
            decode-append p.buf more ty n1 some1,
            next_frame,
            drop-append_le n1 p.buf more (decode_takes _ ty n1 some1).1,
            decode-append (drop n1 p.buf) more len n2 some2,
          )
          (take_frame-append p.buf more ty n1 len n2 frame p' (rw (some1, next_frame, some2) at e))
  ]
]

module _ {ℓ} {S : Type ℓ} (body : ℕ × List ℕ → S → S) where
  frames_loop-drained :
      (rounds : ℕ) (p : FrameParser) (s : S)
      → length p.buf ≤ rounds
      → next_frame (frames_loop body rounds p s).1 ≡ none
  unfolding frames_loop
  frames_loop-drained zero p s h = elim (Option-cases (next_frame p)) [
    | inl e ↦ e
    | inr ((frame, p'), e) ↦ absurd (omega (arith, next_frame_takes p p' frame e))
  ]
  frames_loop-drained (suc rounds) p s h = elim (Option-cases (next_frame p)) [
    | inl e ↦ rw (e, frames_loop) e
    | inr ((frame, p'), e) ↦
        rw (e, frames_loop)
          (frames_loop-drained rounds p' (body frame s)
            (omega (arith, next_frame_takes p p' frame e)))
  ]

  -- The loop stops only where `next_frame` has no frame to give, so its rounds are enough.
  pub for_frames-drained : (p : FrameParser) (s : S) → next_frame (for_frames body p s).1 ≡ none
  unfolding for_frames
  for_frames-drained p s = frames_loop-drained (length p.buf) p s (omega arith)

  frames_loop_keeps {κ} :
      (P : S → Type κ)
      → ((frame : ℕ × List ℕ) (s : S) → P s → P (body frame s))
      → (rounds : ℕ) (p : FrameParser) (s : S) → P s
      → P (frames_loop body rounds p s).0
  unfolding frames_loop
  frames_loop_keeps P keep zero p s h = h
  frames_loop_keeps P keep (suc rounds) p s h = elim (Option-cases (next_frame p)) [
    | inl e ↦ rw (e, frames_loop) h
    | inr ((frame, p'), e) ↦
        rw (e, frames_loop) (frames_loop_keeps P keep rounds p' (body frame s) (keep frame s h))
  ]

  -- The invariant rule of the loop over frames.
  pub for_frames_keeps {κ} :
      (P : S → Type κ)
      → ((frame : ℕ × List ℕ) (s : S) → P s → P (body frame s))
      → (p : FrameParser) (s : S) → P s
      → P (for_frames body p s).0
  unfolding for_frames
  for_frames_keeps P keep p s h = frames_loop_keeps P keep (length p.buf) p s h
