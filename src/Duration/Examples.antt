-- ===== src/Duration/Examples.antt =====
-- Small inputs of the duration parser, and the theorems at them.
use zapadka.Common.{codes, none, some, ◌≡◌, refl, arith}
use zapadka.Duration.Decimal.{digits, to_string, accumulate, parse_u64}
use zapadka.Duration.{from_millis, multiplier, parse, display}
use zapadka.Duration.RoundTrip.{parse-display}
use zapadka.Duration.Accepts.{IsSpelled, parse_exact}

program : Unit {0}
unfolding parse display multiplier parse_u64 accumulate to_string digits
program = tt

spaced : parse (codes " 5 seconds ") ≡ some (from_millis 5000)
unfolding program
spaced = refl

rejected :
    (parse (codes "") ≡ none)
    × (parse (codes "-5s") ≡ none)
    × (parse (codes "5s5") ≡ none)
    × (parse (codes "1.5s") ≡ none)
    × (parse (codes "18446744073709551615h") ≡ none)
unfolding program
rejected = (refl, refl, refl, refl, refl)

printed :
    (display (from_millis 120000) ≡ codes "2min") × (display (from_millis 250) ≡ codes "250ms")
unfolding program
printed = (refl, refl)

parse-display_example : parse (display (from_millis 90000)) ≡ some (from_millis 90000)
parse-display_example = parse-display (from_millis 90000) (omega arith)

parse_exact_example : IsSpelled (codes " 5 seconds ") 5000
parse_exact_example = parse_exact (codes " 5 seconds ") (from_millis 5000) spaced
