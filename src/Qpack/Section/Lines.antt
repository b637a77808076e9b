-- ===== src/Qpack/Section/Lines.antt =====
-- qpack.rs: the field lines that iterating over a decoder yields, as a relation.
use nix_config.Common.{List, [], ◌∷◌, none, some, ok, ◌≡◌}
use nix_config.Qpack.Section.{Decoder, FieldLine, next}

-- `Yields d lines`: the calls of `next` return `lines`, without an error, and then the end.
pub data Yields : Decoder → List FieldLine → Type 0 where
  finished : {d : Decoder} → next d ≡ none → Yields d []
  line :
      {d d' : Decoder} {l : FieldLine} {ls : List FieldLine}
      → next d ≡ some (ok (l, d'))
      → Yields d' ls
      → Yields d (l ∷ ls)
