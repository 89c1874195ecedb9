-- ===== src/Duration/Accepts.antt =====
-- What `parse` accepts, and at which value.
use zapadka.Common.{
  ℕ, ◌*◌, ◌≤◌, Text, trim, none, some, ◌≡◌, ◌≢◌, arith, All, Option-cases, inl, inr, ap, ◌∙◌, ◌<◌,
}
use zapadka.Duration.Decimal.{u64_max, IsDigit, parse_u64, value, parse_u64_sound}
use zapadka.Duration.{Timeout, leading, after, multiplier, parse}

-- How a text spells a number of milliseconds: digits, and a unit with blanks round it.
pub record IsSpelled (s : Text) (ms : ℕ) : Type 0 where
  pub factor : ℕ
  pub digits : All IsDigit (leading (trim s))
  pub unit : multiplier (trim (after (trim s))) ≡ some factor
  pub exact : ms ≡ value 0 (leading (trim s)) * factor
  pub fits : ms ≤ u64_max

no_number : (s : Text) (t : Timeout) → parse_u64 (leading (trim s)) ≡ none → parse s ≢ some t
unfolding parse
no_number s t e h = ground arith

no_unit : (s : Text) (t : Timeout) → multiplier (trim (after (trim s))) ≡ none → parse s ≢ some t
unfolding parse
no_unit s t e h = ground arith

parse_product :
    (s : Text) (t : Timeout) (n factor : ℕ)
    → parse_u64 (leading (trim s)) ≡ some n
    → multiplier (trim (after (trim s))) ≡ some factor
    → parse s ≡ some t
    → (t.milliseconds ≡ n * factor) × (n * factor ≤ u64_max)
unfolding parse
parse_product s t n factor hn hf h = ground arith

-- An accepted text is digits before a known unit, and the timeout is their exact product: nothing
-- was rounded, dropped or wrapped around at 2 ^ 64.
pub parse_exact : (s : Text) (t : Timeout) → parse s ≡ some t → IsSpelled s t.milliseconds
parse_exact s t h = elim (Option-cases (parse_u64 (leading (trim s)))) [
  | inl e ↦ absurd (no_number s t e h)
  | inr (n, hn) ↦ elim (Option-cases (multiplier (trim (after (trim s))))) [
    | inl e ↦ absurd (no_unit s t e h)
    | inr (factor, hf) ↦
        let (product, fits) = parse_product s t n factor hn hf h in
        let (all_digits, exact, _) = parse_u64_sound (leading (trim s)) n hn in
        record {
          factor = factor;
          digits = all_digits;
          unit = hf;
          exact = product ∙ ap (λ (m : ℕ). m * factor) exact;
          fits = omega arith;
        }
  ]
]

-- A product that a `u64` cannot hold is refused, however the unit is spelled.
pub parse_overflow :
    (s : Text) (n factor : ℕ)
    → parse_u64 (leading (trim s)) ≡ some n
    → multiplier (trim (after (trim s))) ≡ some factor
    → u64_max < n * factor
    → parse s ≡ none
unfolding parse
parse_overflow s n factor hn hf large = ground arith
