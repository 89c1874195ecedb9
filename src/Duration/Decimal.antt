-- ===== src/Duration/Decimal.antt =====
-- Decimal print and read of `u64`, as the standard library's `to_string` and `parse::<u64>` do.
use zapadka.Common.{
  ℕ, zero, suc, ◌+◌, ◌*◌, ◌/◌, ◌%◌, ◌^◌, ◌-◌, ◌≤◌, ◌<◌, Text, Bool, true, ◌&&◌, [], ◌∷◌, ◌++◌,
  Option, none, some, leb, ltb, if◌then◌else◌, ◌≡◌, ◌≢◌, refl, arith, All, All-append, Bool-cases,
  inl, inr, ap, ◌∙◌,
}

abbrev pub u64_max : ℕ
u64_max = 2 ^ 64 - 1

abbrev pub is_digit : ℕ → Bool
is_digit c = leb b'0' c && leb c b'9'

-- The digits of a number, with room for `fuel` of them. Twenty digits are enough for a `u64`.
unfoldable pub digits : ℕ → ℕ → Text
digits zero n = []
digits (suc fuel) n =
    let rest = digits fuel (n / 10) in
    if ltb n 10 then (b'0' + n) ∷ [] else rest ++ (b'0' + n % 10) ∷ []

unfoldable pub to_string : ℕ → Text
to_string n = digits 20 n

-- Each digit is taken by `checked_mul(10)` and `checked_add`.
unfoldable pub accumulate : Text → ℕ → Option ℕ
accumulate [] n = some n
accumulate (c ∷ s) n =
    let next = accumulate s (n * 10 + (c - b'0')) in
    if is_digit c && leb (n * 10 + (c - b'0')) u64_max then next else none

-- `str::parse::<u64>` on a text of digits; the empty text is an error.
unfoldable pub parse_u64 : Text → Option ℕ
parse_u64 [] = none
parse_u64 (c ∷ s) = accumulate (c ∷ s) 0

abbrev pub IsDigit : ℕ → Type 0
IsDigit c = is_digit c ≡ true

accumulate-append :
    (s : Text) (c n m : ℕ)
    → accumulate s n ≡ some m
    → is_digit c ≡ true
    → m * 10 + (c - b'0') ≤ u64_max
    → accumulate (s ++ c ∷ []) n ≡ some (m * 10 + (c - b'0'))
unfolding accumulate
accumulate-append [] c n m h d fits = ground arith
accumulate-append (e ∷ s) c n m h d fits =
    ground (arith, accumulate-append s c (n * 10 + (e - b'0')) m)

digit_char : (n : ℕ) → is_digit (b'0' + n % 10) ≡ true
digit_char n = ground arith

-- How many numbers have at most `fuel` digits.
abbrev pub room : ℕ → ℕ
room zero = 1
room (suc fuel) = 10 * room fuel

accumulate-digits :
    (fuel n : ℕ) → n < room fuel → 0 < fuel → n ≤ u64_max → accumulate (digits fuel n) 0 ≡ some n
unfolding digits accumulate
accumulate-digits zero n h p fits = absurd (omega arith)
accumulate-digits (suc zero) n h p fits = ground arith
accumulate-digits (suc (suc fuel)) n h p fits = elim (Bool-cases (ltb n 10)) [
  | inl small ↦ rw small (ground arith)
  | inr large ↦ rw large (
      accumulate-append (digits (suc fuel) (n / 10)) (b'0' + n % 10) 0 (n / 10)
        (accumulate-digits (suc fuel) (n / 10) (omega arith) (omega arith) (omega arith))
        (digit_char n) (omega arith)
      ∙ ap some (omega arith))
]

snoc-ne-nil : (s : Text) (c : ℕ) → s ++ c ∷ [] ≢ []
snoc-ne-nil [] c h = cc
snoc-ne-nil (d ∷ s) c h = cc

digits-ne-nil : (fuel n : ℕ) → digits (suc fuel) n ≢ []
unfolding digits
digits-ne-nil fuel n = ground (arith, snoc-ne-nil (digits fuel (n / 10)) (b'0' + n % 10))

parse_u64-accumulate : (s : Text) → s ≢ [] → parse_u64 s ≡ accumulate s 0
unfolding parse_u64
parse_u64-accumulate [] h = absurd (h refl)
parse_u64-accumulate (c ∷ s) h = refl

-- The digits of a `u64` read back as that number.
pub parse_u64-to_string : (n : ℕ) → n ≤ u64_max → parse_u64 (to_string n) ≡ some n
unfolding to_string
parse_u64-to_string n h =
    parse_u64-accumulate (digits 20 n) (digits-ne-nil 19 n)
    ∙ accumulate-digits 20 n (omega arith) (omega arith) h

digits-IsDigit : (fuel n : ℕ) → All IsDigit (digits fuel n)
unfolding digits
digits-IsDigit zero n = tt
digits-IsDigit (suc fuel) n = elim (Bool-cases (ltb n 10)) [
  | inl small ↦ rw small (ground arith, tt)
  | inr large ↦ rw large (
      All-append IsDigit (digits fuel (n / 10)) ((b'0' + n % 10) ∷ [])
        (digits-IsDigit fuel (n / 10)) (digit_char n, tt))
]

pub to_string-IsDigit : (n : ℕ) → All IsDigit (to_string n)
unfolding to_string
to_string-IsDigit n = digits-IsDigit 20 n

-- The number that digits spell behind `n`, with no bound.
abbrev pub value : ℕ → Text → ℕ
value n [] = n
value n (c ∷ s) = value (n * 10 + (c - b'0')) s

accumulate_sound :
    (s : Text) (n m : ℕ)
    → n ≤ u64_max
    → accumulate s n ≡ some m
    → All IsDigit s × (m ≡ value n s) × (m ≤ u64_max)
unfolding accumulate
accumulate_sound [] n m fits h = ground arith
accumulate_sound (c ∷ s) n m fits h = ground (arith, accumulate_sound s (n * 10 + (c - b'0')) m)

-- What is read is one or more digits, at their true value.
pub parse_u64_sound :
    (s : Text) (m : ℕ) → parse_u64 s ≡ some m → All IsDigit s × (m ≡ value 0 s) × (m ≤ u64_max)
unfolding parse_u64
parse_u64_sound [] m h = cc
parse_u64_sound (c ∷ s) m h = accumulate_sound (c ∷ s) 0 m (omega arith) h
