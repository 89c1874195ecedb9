-- ===== src/Errors/Examples.antt =====
-- The theorems about codes at concrete ones.
use zapadka.Common.{◌≡◌, ◌≢◌, refl}
use zapadka.Errors.{io, graph_cycle, exit_code, code_of, from_code, success, usage}
use zapadka.Errors.Codes.{as_str_injective, exit_code_round_trip}

as_str_injective_example : io ≡ io
as_str_injective_example = as_str_injective io io refl

exit_code_round_trip_example :
    (from_code (code_of (exit_code graph_cycle)) ≡ exit_code graph_cycle)
    × (exit_code graph_cycle ≢ success)
    × (exit_code graph_cycle ≢ usage)
exit_code_round_trip_example = exit_code_round_trip graph_cycle
