-- ===== src/H3/Frames/RoundTrip.antt =====
-- h3.rs: frames that are written with `varint_encode`, as `encode_request` and the peer write them,
-- are popped one by one.
use nix_config.Common.{
  ℕ, ◌+◌, ◌^◌, ◌<◌, ◌≡◌, refl, sym, ap, ◌∙◌, List, [], ◌∷◌, ◌++◌, All, none, some, length, drop,
  arith, length-append, append_assoc, take-append_self, drop-append_self,
}
use nix_config.Varint.{varint_bytes, varint_decode}
use nix_config.Varint.RoundTrip.{decode-varint_bytes}
use nix_config.H3.Frames.{empty_parser, take_frame, next_frame, for_frames}
use nix_config.H3.Frames.Chunks.{for_frames_step, for_frames_stop}

-- A frame on the wire.
unfoldable pub frame_bytes : ℕ → List ℕ → List ℕ
frame_bytes ty payload = varint_bytes ty ++ (varint_bytes (length payload) ++ payload)

take_frame-bytes :
    (header payload rest : List ℕ) (ty n1 n2 : ℕ)
    → n1 + n2 ≡ length header
    → take_frame (header ++ (payload ++ rest)) (ty, n1) (length payload, n2)
      ≡ some ((ty, payload), record { buf = rest })
unfolding take_frame
take_frame-bytes header payload rest ty n1 n2 e =
    rw
      (
        e,
        drop-append_self header (payload ++ rest),
        take-append_self payload rest,
        ← append_assoc header payload rest,
        ← length-append header payload,
        drop-append_self (header ++ payload) rest,
      )
      (ground (arith, length-append (header ++ payload) rest))

next_frame_at :
    (buf : List ℕ) (ty n1 len n2 : ℕ)
    → varint_decode buf ≡ some (ty, n1)
    → varint_decode (drop n1 buf) ≡ some (len, n2)
    → next_frame (record { buf = buf }) ≡ take_frame buf (ty, n1) (len, n2)
unfolding next_frame
next_frame_at buf ty n1 len n2 e1 e2 = rw (e1, next_frame, e2)

-- The first frame is popped with its type and payload, and what follows it stays in the buffer.
pub next_frame-frame_bytes :
    (ty : ℕ) (payload rest : List ℕ)
    → ty < 2 ^ 62
    → length payload < 2 ^ 62
    → next_frame (record { buf = frame_bytes ty payload ++ rest })
      ≡ some ((ty, payload), record { buf = rest })
unfolding frame_bytes
next_frame-frame_bytes ty payload rest ht hp =
    let a = varint_bytes ty in
    let b = varint_bytes (length payload) in
    let body = payload ++ rest in
    let shape : (a ++ (b ++ payload)) ++ rest ≡ a ++ (b ++ body) = simp append_assoc in
    let second : varint_decode (drop (length a) (a ++ (b ++ body)))
        ≡ some (length payload, length b) =
      rw (drop-append_self a (b ++ body)) (decode-varint_bytes (length payload) body hp) in
    ap (λ (t : List ℕ). next_frame (record { buf = t })) shape
    ∙ (next_frame_at (a ++ (b ++ body)) ty (length a) (length payload) (length b)
          (decode-varint_bytes ty (b ++ body) ht) second
        ∙ rw (← append_assoc a b body) (
            take_frame-bytes (a ++ b) payload rest ty (length a) (length b)
              (sym (length-append a b))))

-- Several frames on the wire, one after the other.
unfoldable pub frames_bytes : List (ℕ × List ℕ) → List ℕ
frames_bytes [] = []
frames_bytes ((ty, payload) ∷ frames) = frame_bytes ty payload ++ frames_bytes frames

-- The type and the length of a frame have an encoding.
abbrev pub FrameFits : ℕ × List ℕ → Type 0
FrameFits (ty, payload) = (ty < 2 ^ 62) × (length payload < 2 ^ 62)

module _ {ℓ} {S : Type ℓ} (body : ℕ × List ℕ → S → S) where
  unfoldable pub fold_frames : List (ℕ × List ℕ) → S → S
  fold_frames [] s = s
  fold_frames (frame ∷ frames) s = fold_frames frames (body frame s)

  next-empty : next_frame empty_parser ≡ none
  unfolding next_frame varint_decode
  next-empty = refl

  -- The loop runs its body on each of the frames, in order, and leaves an empty buffer.
  pub for_frames-frames_bytes :
      (frames : List (ℕ × List ℕ)) (s : S)
      → All FrameFits frames
      → for_frames body (record { buf = frames_bytes frames }) s
        ≡ (fold_frames frames s, empty_parser)
  unfolding frames_bytes fold_frames
  for_frames-frames_bytes [] s h = for_frames_stop body empty_parser s next-empty
  for_frames-frames_bytes ((ty, payload) ∷ frames) s ((ht, hp), h) =
      for_frames_step body _ (record { buf = frames_bytes frames }) (ty, payload) s
        (next_frame-frame_bytes ty payload (frames_bytes frames) ht hp)
      ∙ for_frames-frames_bytes frames (body (ty, payload) s) h
