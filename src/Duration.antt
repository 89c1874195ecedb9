-- ===== src/Duration.antt =====
-- crates/zapadka-core/src/duration.rs: timeouts, their parser and their printer.
-- A `u64` is a number below 2 ^ 64; `checked_mul` and `str::parse::<u64>` refuse what is larger.
pub mod Decimal
pub mod RoundTrip
pub mod Accepts
mod Examples
use zapadka.Common.{
  ℕ, ◌*◌, ◌/◌, ◌%◌, ◌^◌, ◌-◌, Text, codes, text_eq, trim, trim_start_by, is_empty, Bool, true,
  false, not, ◌||◌, ◌&&◌, List, [], ◌∷◌, ◌++◌, Option, none, some, ◌==◌, ltb, leb, if◌then◌else◌,
}
use zapadka.Duration.Decimal.{parse_u64, to_string, is_digit, u64_max}

pub record Timeout : Type 0 where
  pub milliseconds : ℕ

abbrev pub from_millis : ℕ → Timeout
from_millis ms = record { milliseconds = ms }

abbrev pub is_zero : Timeout → Bool
is_zero t = t.milliseconds == 0

-- `text.split_at(digits)`, where `digits` is the place of the first character that is no digit.
abbrev pub leading : Text → Text
leading [] = []
leading (c ∷ s) = let rest = leading s in if is_digit c then c ∷ rest else []

abbrev pub after : Text → Text
after [] = []
after (c ∷ s) = let rest = after s in if is_digit c then rest else c ∷ s

abbrev pub one_of : Text → List Text → Bool
one_of s [] = false
one_of s (t ∷ ts) = text_eq s t || one_of s ts

-- The `match unit.trim()` of `parse`.
unfoldable pub multiplier : Text → Option ℕ
multiplier unit =
    if one_of unit (codes "" ∷ codes "ms" ∷ [])
    then some 1
    else if one_of unit
        (codes "s" ∷ codes "sec" ∷ codes "secs" ∷ codes "second" ∷ codes "seconds" ∷ [])
    then some 1000
    else if one_of unit (codes "min" ∷ codes "mins" ∷ codes "minute" ∷ codes "minutes" ∷ [])
    then some 60000
    else if one_of unit (codes "h" ∷ codes "hr" ∷ codes "hour" ∷ codes "hours" ∷ [])
    then some 3600000
    else none

-- `u64::checked_mul`.
abbrev pub checked_mul : ℕ → ℕ → Option ℕ
checked_mul a b = if leb (a * b) u64_max then some (a * b) else none

infixl 5 ◌>>=◌
abbrev pub ◌>>=◌ : {A B : Type 0} → Option A → (A → Option B) → Option B
none >>= f = none
some a >>= f = f a

-- `Timeout::parse`; `none` is a `TimeoutParseError`.
unfoldable pub parse : Text → Option Timeout
parse input =
    let text = trim input in
    if is_empty text then none else (do
      number ← parse_u64 (leading text)
      factor ← multiplier (trim (after text))
      ms ← checked_mul number factor
      some (from_millis ms))

-- `Display for Timeout`.
unfoldable pub display : Timeout → Text
display t =
    let ms = t.milliseconds in
    if ms == 0
    then codes "0"
    else if ms % 3600000 == 0
    then to_string (ms / 3600000) ++ codes "h"
    else if ms % 60000 == 0
    then to_string (ms / 60000) ++ codes "min"
    else if ms % 1000 == 0
    then to_string (ms / 1000) ++ codes "s"
    else to_string ms ++ codes "ms"

-- `as_postgres_setting`.
unfoldable pub as_postgres_setting : Timeout → Text
as_postgres_setting t = to_string t.milliseconds
