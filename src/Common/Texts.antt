-- ===== src/Common/Texts.antt =====
-- Rust's `str` on ASCII texts, as lists of bytes: white space, parts, lines and numbers.
use Prim.Native.Nat.{ℕ, ◌+◌, ◌-◌, ◌*◌}
use mathlib.Core.Bool.{Bool, true, false, ◌&&◌, ◌||◌}
use mathlib.Core.List.{List, [], ◌∷◌}
use mathlib.Core.Option.{Option, none, some}
use nix_config.Common.Tests.{ltb, leb, ◌==◌, if◌then◌else◌}

abbrev pub is_space : ℕ → Bool
is_space c = (leb 9 c && leb c 13) || (c == 32)

unfoldable pub trim_start : List ℕ → List ℕ
trim_start [] = []
trim_start (c ∷ s) = let rest = trim_start s in if is_space c then rest else c ∷ s

abbrev before_end : ℕ → List ℕ → List ℕ
before_end c [] = if is_space c then [] else c ∷ []
before_end c (d ∷ s) = c ∷ d ∷ s

unfoldable pub trim_end : List ℕ → List ℕ
trim_end [] = []
trim_end (c ∷ s) = before_end c (trim_end s)

unfoldable pub trim : List ℕ → List ℕ
trim s = trim_end (trim_start s)

abbrev pub onto_first : ℕ → List (List ℕ) → List (List ℕ)
onto_first c [] = (c ∷ []) ∷ []
onto_first c (p ∷ ps) = (c ∷ p) ∷ ps

-- `split`: one part more than there are separators.
unfoldable pub split_on : ℕ → List ℕ → List (List ℕ)
split_on sep [] = [] ∷ []
split_on sep (c ∷ s) =
    let parts = split_on sep s in if c == sep then [] ∷ parts else onto_first c parts

-- `lines`: an empty last part is no line, and a carriage return before the line feed is dropped.
unfoldable pub without_cr : List ℕ → List ℕ
without_cr [] = []
without_cr (c ∷ []) = if c == 13 then [] else c ∷ []
without_cr (c ∷ d ∷ s) = c ∷ without_cr (d ∷ s)

unfoldable pub ended_lines : List (List ℕ) → List (List ℕ)
ended_lines [] = []
ended_lines ([] ∷ []) = []
ended_lines ((c ∷ s) ∷ []) = (c ∷ s) ∷ []
ended_lines (p ∷ q ∷ ps) = without_cr p ∷ ended_lines (q ∷ ps)

abbrev pub lines : List ℕ → List (List ℕ)
lines s = ended_lines (split_on 10 s)

-- `split_whitespace`: no field is empty. `inside` tells whether the byte before belongs to a field.
abbrev onto_field : Bool → ℕ → List (List ℕ) → List (List ℕ)
onto_field true c fields = onto_first c fields
onto_field false c fields = (c ∷ []) ∷ fields

abbrev pub starts_field : List ℕ → Bool
starts_field [] = false
starts_field (c ∷ s) = if is_space c then false else true

unfoldable pub words : List ℕ → List (List ℕ)
words [] = []
words (c ∷ s) =
    let fields = words s in if is_space c then fields else onto_field (starts_field s) c fields

abbrev pub dec_digit : ℕ → Option ℕ
dec_digit c = if leb 48 c && leb c 57 then some (c - 48) else none

abbrev pub hex_digit : ℕ → Option ℕ
hex_digit c =
    if leb 48 c && leb c 57
    then some (c - 48)
    else if leb 97 c && leb c 102
    then some (c - 87)
    else if leb 65 c && leb c 70
    then some (c - 55)
    else none

-- The digits that are left, after the value `n`; a value that is not below the limit is an error.
unfoldable pub radix_digits : ℕ → (ℕ → Option ℕ) → ℕ → List ℕ → ℕ → Option ℕ
radix_digits radix digit limit [] n = some n
radix_digits radix digit limit (c ∷ cs) n = elim (digit c) [
  | none ↦ none
  | some d ↦
      let rest = radix_digits radix digit limit cs (n * radix + d) in
      if ltb (n * radix + d) limit then rest else none
]

-- `from_str_radix`: a leading `+` is allowed, an empty number is not.
unfoldable pub parse_radix : ℕ → (ℕ → Option ℕ) → ℕ → List ℕ → Option ℕ
unfolding radix_digits
parse_radix radix digit limit [] = none
parse_radix radix digit limit (c ∷ []) =
    if c == 43 then none else radix_digits radix digit limit (c ∷ []) 0
parse_radix radix digit limit (c ∷ d ∷ cs) =
    if c == 43
    then radix_digits radix digit limit (d ∷ cs) 0
    else radix_digits radix digit limit (c ∷ d ∷ cs) 0
