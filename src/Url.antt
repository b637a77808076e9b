-- ===== src/Url.antt =====
-- pkgs/microdoh3/src/url.rs: `HttpsUrl::parse`. A text is the list of its bytes; every text that is
-- looked for is ASCII, so the bytes serve as well as the characters.
use nix_config.Common.{
  ℕ, zero, suc, ◌+◌, ◌/◌, ◌%◌, List, [], ◌∷◌, ◌++◌, Bool, true, false, Option, none, some,
  if◌then◌else◌, ltb, ◌==◌, ◌||◌, parse_u16, codes, Result, ok, err, ◌>>=◌, or_err,
}
pub mod Texts
pub mod RoundTrip

pub record HttpsUrl : Type 0 where
  pub host : List ℕ
  pub port : ℕ
  pub path : List ℕ
  pub authority : List ℕ

pub data UrlError : Type 0 where
  not_https no_host bad_port unsupported : UrlError

unfoldable pub strip_prefix : List ℕ → List ℕ → Option (List ℕ)
strip_prefix [] s = some s
strip_prefix (p ∷ ps) [] = none
strip_prefix (p ∷ ps) (c ∷ s) = let rest = strip_prefix ps s in if p == c then rest else none

unfoldable pub contains : ℕ → List ℕ → Bool
contains c [] = false
contains c (x ∷ xs) = (x == c) || contains c xs

unfoldable pub is_empty : List ℕ → Bool
is_empty [] = true
is_empty (x ∷ xs) = false

-- `find` and the two slices: what stands before the first such byte, and what after it.
unfoldable pub split_first : ℕ → List ℕ → Option (List ℕ × List ℕ)
split_first c [] = none
split_first c (x ∷ xs) =
    let rest : Option (List ℕ × List ℕ) = elim (split_first c xs) [
      | none ↦ none
      | some (b, a) ↦ some (x ∷ b, a)
    ] in
    if x == c then some ([], xs) else rest

-- `rsplit_once`.
unfoldable pub split_last : ℕ → List ℕ → Option (List ℕ × List ℕ)
split_last c [] = none
split_last c (x ∷ xs) = elim (split_last c xs) [
  | some (b, a) ↦ some (x ∷ b, a)
  | none ↦ if x == c then some ([], xs) else none
]

-- The authority, and the path with its slash.
unfoldable pub split_path : List ℕ → List ℕ × List ℕ
split_path rest = elim (split_first 47 rest) [
  | some (b, a) ↦ (b, 47 ∷ a)
  | none ↦ (rest, codes "/")
]

-- What follows the bracket of an address of version 6.
unfoldable pub parse_tail : List ℕ → Result UrlError ℕ
parse_tail [] = ok 443
parse_tail (c ∷ ps) = if c == 58 then or_err (parse_u16 ps) bad_port else err bad_port

unfoldable pub parse_authority : List ℕ → Result UrlError (List ℕ × ℕ)
parse_authority authority = elim (strip_prefix (codes "[") authority) [
  | some a ↦ elim (split_first 93 a) [
    | none ↦ err no_host
    | some (h, tail) ↦ parse_tail tail >>= λ p. ok (h, p)
  ]
  | none ↦ elim (split_last 58 authority) [
    | some (h, ps) ↦ or_err (parse_u16 ps) bad_port >>= λ p. ok (h, p)
    | none ↦ ok (authority, 443)
  ]
]

-- A `u16` in decimal, with at most `rounds` digits.
unfoldable pub show_digits : ℕ → ℕ → List ℕ
show_digits zero n = []
show_digits (suc rounds) n =
    let more = show_digits rounds (n / 10) in
    if ltb n 10 then (48 + n) ∷ [] else more ++ (48 + n % 10) ∷ []

unfoldable pub show_u16 : ℕ → List ℕ
show_u16 n = show_digits 5 n

unfoldable pub authority_of : List ℕ → ℕ → List ℕ
authority_of host port =
    if contains 58 host
    then (if port == 443
        then codes "[" ++ (host ++ codes "]")
        else codes "[" ++ (host ++ (codes "]:" ++ show_u16 port)))
    else if port == 443
    then host
    else host ++ (codes ":" ++ show_u16 port)

unfoldable pub parse : List ℕ → Result UrlError HttpsUrl
parse s = elim (strip_prefix (codes "https://") s) [
  | none ↦ err not_https
  | some rest ↦
      if contains 64 rest || contains 35 rest
      then err unsupported
      else (let (authority, path) = split_path rest in
          if is_empty authority
          then err no_host
          else (parse_authority authority >>= λ hp.
              if is_empty hp.0
              then err no_host
              else ok (record {
                host = hp.0;
                port = hp.1;
                path = path;
                authority = authority_of hp.0 hp.1;
              })))
]
