-- ===== src/Url/Texts.antt =====
-- url.rs: searching texts, and decimal numbers.
use nix_config.Common.{
  ℕ, zero, suc, ◌+◌, ◌-◌, ◌*◌, ◌/◌, ◌%◌, ◌^◌, ◌<◌, ◌≡◌, refl, ◌∙◌, List, [], ◌∷◌, ◌++◌, false, none,
  some, ◌||◌, parse_u16, u16_digits, arith,
}
use native.Mathlib.Nat.{pow-suc}
use nix_config.Url.{
  strip_prefix, contains, is_empty, split_first, split_last, show_digits, show_u16,
}

pub contains-append :
    (c : ℕ) (xs ys : List ℕ) → contains c (xs ++ ys) ≡ (contains c xs || contains c ys)
unfolding contains
contains-append c [] ys = refl
contains-append c (x ∷ xs) ys = ground (arith, contains-append c xs ys)

pub split_first-append :
    (c : ℕ) (xs ys : List ℕ) → contains c xs ≡ false → split_first c (xs ++ c ∷ ys) ≡ some (xs, ys)
unfolding contains split_first
split_first-append c [] ys h = ground arith
split_first-append c (x ∷ xs) ys h = ground (arith, split_first-append c xs ys)

pub split_last-none : (c : ℕ) (xs : List ℕ) → contains c xs ≡ false → split_last c xs ≡ none
unfolding contains split_last
split_last-none c [] h = refl
split_last-none c (x ∷ xs) h = ground (arith, split_last-none c xs)

pub split_last-append :
    (c : ℕ) (xs ys : List ℕ) → contains c ys ≡ false → split_last c (xs ++ c ∷ ys) ≡ some (xs, ys)
unfolding split_last
split_last-append c [] ys h = rw (split_last-none c ys h) (ground arith)
split_last-append c (x ∷ xs) ys h = rw (split_last-append c xs ys h) refl

pub strip_prefix-append : (xs ys : List ℕ) → strip_prefix xs (xs ++ ys) ≡ some ys
unfolding strip_prefix
strip_prefix-append [] ys = refl
strip_prefix-append (x ∷ xs) ys = ground (arith, strip_prefix-append xs ys)

-- A decimal number consists of digits.
pub show_digits-digits : (rounds n c : ℕ) → 57 < c → contains c (show_digits rounds n) ≡ false
unfolding show_digits contains
show_digits-digits zero n c h = refl
show_digits-digits (suc rounds) n c h = ground (
  arith,
  contains-append c (show_digits rounds (n / 10)) ((48 + n % 10) ∷ []),
  show_digits-digits rounds (n / 10) c h,
)

pub show_digits-low : (rounds n c : ℕ) → c < 48 → contains c (show_digits rounds n) ≡ false
unfolding show_digits contains
show_digits-low zero n c h = refl
show_digits-low (suc rounds) n c h = ground (
  arith,
  contains-append c (show_digits rounds (n / 10)) ((48 + n % 10) ∷ []),
  show_digits-low rounds (n / 10) c h,
)

u16_digits-snoc :
    (xs : List ℕ) (acc m c : ℕ)
    → u16_digits xs acc ≡ some m
    → u16_digits (xs ++ c ∷ []) acc ≡ u16_digits (c ∷ []) m
unfolding u16_digits
u16_digits-snoc [] acc m c h = ground arith
u16_digits-snoc (x ∷ xs) acc m c h = ground (arith, u16_digits-snoc xs (acc * 10 + (x - 48)) m c)

u16_digits-show_digits :
    (rounds n : ℕ) → n < 10 ^ rounds → n < 65536 → u16_digits (show_digits rounds n) 0 ≡ some n
unfolding u16_digits show_digits
u16_digits-show_digits zero n h fits = ground arith
u16_digits-show_digits (suc rounds) n h fits =
    let less : n / 10 < 10 ^ rounds = omega (arith, pow-suc 10 rounds) in
    ground (
      arith,
      u16_digits-snoc (show_digits rounds (n / 10)) 0 (n / 10) (48 + n % 10)
          (u16_digits-show_digits rounds (n / 10) less (omega arith)),
    )

parse_u16-unsigned :
    (c : ℕ) (xs : List ℕ)
    → contains 43 (c ∷ xs) ≡ false
    → parse_u16 (c ∷ xs) ≡ u16_digits (c ∷ xs) 0
unfolding parse_u16 contains
parse_u16-unsigned c [] h = ground arith
parse_u16-unsigned c (d ∷ xs) h = ground arith

parse_u16-cases :
    (xs : List ℕ) (n : ℕ)
    → contains 43 xs ≡ false
    → is_empty xs ≡ false
    → u16_digits xs 0 ≡ some n
    → parse_u16 xs ≡ some n
unfolding is_empty
parse_u16-cases [] n h e r = cc
parse_u16-cases (c ∷ xs) n h e r = parse_u16-unsigned c xs h ∙ r

is_empty-snoc : (xs : List ℕ) (c : ℕ) → is_empty (xs ++ c ∷ []) ≡ false
unfolding is_empty
is_empty-snoc [] c = refl
is_empty-snoc (x ∷ xs) c = refl

show_u16-some : (n : ℕ) → is_empty (show_u16 n) ≡ false
unfolding is_empty show_u16 show_digits
show_u16-some n = ground (arith, is_empty-snoc (show_digits 4 (n / 10)) (48 + n % 10))

-- A 16-bit number is read back from its decimal text.
pub parse_u16-show_u16 : (n : ℕ) → n < 65536 → parse_u16 (show_u16 n) ≡ some n
unfolding show_u16
parse_u16-show_u16 n h =
    parse_u16-cases (show_digits 5 n) n (show_digits-low 5 n 43 (omega arith))
      (unfold show_u16 in show_u16-some n) (u16_digits-show_digits 5 n (omega arith) h)
