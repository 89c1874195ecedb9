-- ===== src/Duration/RoundTrip.antt =====
-- What `display` prints, `parse` reads back.
use zapadka.Common.{
  ℕ, ◌*◌, ◌/◌, ◌%◌, ◌≤◌, Text, codes, trim, trim_end_by, is_whitespace, is_empty, true, false, [],
  ◌∷◌, ◌++◌, some, ◌==◌, ◌≡◌, refl, arith, All, All-append, Bool-cases, inl, inr, ap, ◌∙◌,
}
use zapadka.Duration.Decimal.{
  u64_max, is_digit, IsDigit, to_string, parse_u64, accumulate, parse_u64-to_string,
  to_string-IsDigit,
}
use zapadka.Duration.{Timeout, from_millis, leading, after, multiplier, parse, display}

abbrev IsSolid : ℕ → Type 0
IsSolid c = is_whitespace c ≡ false

trim_end_lem : (s : Text) → All IsSolid s → trim_end_by is_whitespace s ≡ s
trim_end_lem [] h = refl
trim_end_lem (c ∷ s) h = rw (trim_end_lem s h.1, h.0)

trim_lem : (s : Text) → All IsSolid s → trim s ≡ s
trim_lem [] h = refl
trim_lem (c ∷ s) h = rw h.0 (trim_end_lem (c ∷ s) h)

digit-IsSolid : (c : ℕ) → IsDigit c → IsSolid c
digit-IsSolid c h = ground arith

digits-IsSolid : (s : Text) → All IsDigit s → All IsSolid s
digits-IsSolid [] h = tt
digits-IsSolid (c ∷ s) h = (digit-IsSolid c h.0, digits-IsSolid s h.1)

leading-append :
    (s : Text) (c : ℕ) (u : Text) → All IsDigit s → is_digit c ≡ false → leading (s ++ c ∷ u) ≡ s
leading-append [] c u h e = rw e
leading-append (d ∷ s) c u h e = rw (h.0, leading-append s c u h.1 e)

after-append :
    (s : Text) (c : ℕ) (u : Text) → All IsDigit s → is_digit c ≡ false → after (s ++ c ∷ u) ≡ c ∷ u
after-append [] c u h e = rw e
after-append (d ∷ s) c u h e = rw (h.0, after-append s c u h.1 e)

is_empty-append : (s : Text) (c : ℕ) (u : Text) → is_empty (s ++ c ∷ u) ≡ false
is_empty-append [] c u = refl
is_empty-append (d ∷ s) c u = refl

-- A `u64` before a unit with no blank in it is read as that many of the unit, if that fits.
pub parse_spelled :
    (n factor c : ℕ) (u : Text)
    → n ≤ u64_max
    → n * factor ≤ u64_max
    → is_digit c ≡ false
    → All IsSolid (c ∷ u)
    → multiplier (c ∷ u) ≡ some factor
    → parse (to_string n ++ c ∷ u) ≡ some (from_millis (n * factor))
unfolding parse
parse_spelled n factor c u fits product_fits no_digit solid known =
    let ds = to_string-IsDigit n in
    rw
      (
        trim_lem (to_string n ++ c ∷ u)
            (All-append IsSolid (to_string n) (c ∷ u) (digits-IsSolid (to_string n) ds) solid),
        is_empty-append (to_string n) c u,
        leading-append (to_string n) c u ds no_digit,
        after-append (to_string n) c u ds no_digit,
        parse_u64-to_string n fits,
        trim_lem (c ∷ u) solid,
        known,
      )
      (ground arith)

module _ (ms : ℕ) (fits : ms ≤ u64_max) where
  -- A unit that divides the number of milliseconds gives it back.
  spelled_exactly :
      (factor c : ℕ) (u : Text)
      → ms / factor ≤ u64_max
      → ms / factor * factor ≡ ms
      → is_digit c ≡ false
      → All IsSolid (c ∷ u)
      → multiplier (c ∷ u) ≡ some factor
      → parse (to_string (ms / factor) ++ c ∷ u) ≡ some (from_millis ms)
  spelled_exactly factor c u less exact no_digit solid known =
      parse_spelled (ms / factor) factor c u less (omega arith) no_digit solid known
      ∙ ap (λ (n : ℕ). some (from_millis n)) exact

  parse_hours :
      (ms % 3600000 == 0) ≡ true
      → parse (to_string (ms / 3600000) ++ codes "h") ≡ some (from_millis ms)
  unfolding multiplier
  parse_hours h = spelled_exactly 3600000 b'h' [] (omega arith) (ground arith) refl (refl, tt) refl

  parse_minutes :
      (ms % 60000 == 0) ≡ true
      → parse (to_string (ms / 60000) ++ codes "min") ≡ some (from_millis ms)
  unfolding multiplier
  parse_minutes h =
      spelled_exactly 60000 b'm' (codes "in") (omega arith) (ground arith) refl
        (refl, (refl, (refl, tt))) refl

  parse_seconds :
      (ms % 1000 == 0) ≡ true → parse (to_string (ms / 1000) ++ codes "s") ≡ some (from_millis ms)
  unfolding multiplier
  parse_seconds h = spelled_exactly 1000 b's' [] (omega arith) (ground arith) refl (refl, tt) refl

  parse_milliseconds : parse (to_string ms ++ codes "ms") ≡ some (from_millis ms)
  unfolding multiplier
  parse_milliseconds =
      parse_spelled ms 1 b'm' (codes "s") fits (omega arith) refl (refl, (refl, tt)) refl
      ∙ ap (λ (n : ℕ). some (from_millis n)) (omega arith)

parse_zero : parse (codes "0") ≡ some (from_millis 0)
unfolding parse multiplier parse_u64 accumulate
parse_zero = refl

-- Every timeout that a `u64` can hold is read back from its print.
pub parse-display : (t : Timeout) → t.milliseconds ≤ u64_max → parse (display t) ≡ some t
unfolding display
parse-display t fits = elim (Bool-cases (ms == 0)) [
  | inl zero_ms ↦ rw zero_ms (parse_zero ∙ ap (λ (n : ℕ). some (from_millis n)) (ground arith))
  | inr positive ↦ rw positive (elim (Bool-cases (ms % 3600000 == 0)) [
    | inl hours ↦ rw hours (parse_hours ms fits hours)
    | inr _not_hours ↦ rw _not_hours (elim (Bool-cases (ms % 60000 == 0)) [
      | inl minutes ↦ rw minutes (parse_minutes ms fits minutes)
      | inr _not_minutes ↦ rw _not_minutes (elim (Bool-cases (ms % 1000 == 0)) [
        | inl seconds ↦ rw seconds (parse_seconds ms fits seconds)
        | inr odd ↦ rw odd (parse_milliseconds ms fits)
      ])
    ])
  ])
]
  where
    open t use {milliseconds as ms}
