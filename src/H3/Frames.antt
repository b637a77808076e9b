-- ===== src/H3/Frames.antt =====
-- h3.rs: the incremental frame parser. `while let Some((ty, payload)) = parser.next_frame()` is
-- `for_frames`, over the variables that the loop's body changes.
use nix_config.Common.{
  ℕ, zero, suc, ◌+◌, List, [], ◌++◌, Option, none, some, if◌then◌else◌, ltb, length, take, drop,
}
use nix_config.Varint.{varint_decode}
pub mod Drained
pub mod Chunks
pub mod RoundTrip

pub record FrameParser : Type 0 where
  pub buf : List ℕ

-- `FrameParser::default()`.
abbrev pub empty_parser : FrameParser
empty_parser = record { buf = [] }

unfoldable pub feed_parser : FrameParser → List ℕ → FrameParser
feed_parser p bytes = record { buf = p.buf ++ bytes }

-- The frame of the header that starts the buffer, if all of its payload is there.
unfoldable pub take_frame : List ℕ → ℕ × ℕ → ℕ × ℕ → Option ((ℕ × List ℕ) × FrameParser)
take_frame buf (ty, n1) (len, n2) =
    if ltb (length buf) (n1 + n2 + len)
    then none
    else some ((ty, take len (drop (n1 + n2) buf)), record { buf = drop (n1 + n2 + len) buf })

unfoldable pub next_frame : FrameParser → Option ((ℕ × List ℕ) × FrameParser)
next_frame p = elim (varint_decode p.buf) [
  | none ↦ none
  | some (ty, n1) ↦ elim (varint_decode (drop n1 p.buf)) [
    | none ↦ none
    | some (len, n2) ↦ take_frame p.buf (ty, n1) (len, n2)
  ]
]

module _ {ℓ} {S : Type ℓ} (body : ℕ × List ℕ → S → S) where
  -- A frame takes two bytes at least, so a buffer's length bounds the rounds.
  unfoldable pub frames_loop : ℕ → FrameParser → S → S × FrameParser
  frames_loop zero p s = (s, p)
  frames_loop (suc rounds) p s = elim (next_frame p) [
    | none ↦ (s, p)
    | some (frame, p') ↦ frames_loop rounds p' (body frame s)
  ]

  unfoldable pub for_frames : FrameParser → S → S × FrameParser
  for_frames p s = frames_loop (length p.buf) p s
