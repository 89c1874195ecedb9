-- ===== src/Errors/Codes.antt =====
-- The error codes and the exit codes as automation matches on them.
use zapadka.Common.{Text, Option, some, ◌≡◌, ◌≢◌, refl, List, [], ◌∷◌, find, text_eq}
use zapadka.Errors.{
  ErrorCode, ExitCode, as_str, exit_code, code_of, from_code, config_not_found, config_invalid,
  config_unsupported_format_version, target_unknown, target_invalid, manifest_invalid,
  manifest_unsupported_format_version, migration_missing_script, migration_directory_mismatch,
  migration_duplicate_id, migration_unknown_dependency, migration_reversibility_invalid,
  migration_id_invalid, graph_cycle, graph_self_dependency, script_parse_error,
  script_transaction_control, script_statement_count, script_empty, execution_mode_unsupported,
  history_migration_missing, history_definition_changed, history_dependencies_changed,
  registry_format_too_new, registry_project_mismatch, registry_not_initialized,
  registry_upgrade_failed, lock_unavailable, connection_failed, server_unsupported, deploy_failed,
  verify_failed, revert_failed, deploy_outcome_unknown, registry_blocked, nothing_to_resolve,
  already_exists, selector_matched_nothing, lint_failed, format_check_failed,
  format_deploy_rewrite_denied, io, success, usage,
}

from_code-code_of : (e : ExitCode) → from_code (code_of e) ≡ e
unfolding from_code code_of
from_code-code_of success = refl
from_code-code_of _ = refl

abbrev every_code : List ErrorCode
every_code =
    config_not_found ∷ config_invalid ∷ config_unsupported_format_version ∷ target_unknown
    ∷ target_invalid ∷ manifest_invalid ∷ manifest_unsupported_format_version
    ∷ migration_missing_script ∷ migration_directory_mismatch ∷ migration_duplicate_id
    ∷ migration_unknown_dependency ∷ migration_reversibility_invalid ∷ migration_id_invalid
    ∷ graph_cycle ∷ graph_self_dependency ∷ script_parse_error ∷ script_transaction_control
    ∷ script_statement_count ∷ script_empty ∷ execution_mode_unsupported ∷ history_migration_missing
    ∷ history_definition_changed ∷ history_dependencies_changed ∷ registry_format_too_new
    ∷ registry_project_mismatch ∷ registry_not_initialized ∷ registry_upgrade_failed
    ∷ lock_unavailable ∷ connection_failed ∷ server_unsupported ∷ deploy_failed ∷ verify_failed
    ∷ revert_failed ∷ deploy_outcome_unknown ∷ registry_blocked ∷ nothing_to_resolve
    ∷ already_exists ∷ selector_matched_nothing ∷ lint_failed ∷ format_check_failed
    ∷ format_deploy_rewrite_denied ∷ io ∷ ErrorCode.internal ∷ []

-- The code that a spelling stands for.
read_code : Text → Option ErrorCode
unfolding as_str
read_code s = find (λ c. text_eq (as_str c) s) every_code

read_code-as_str : (c : ErrorCode) → read_code (as_str c) ≡ some c
unfolding read_code
read_code-as_str config_not_found = refl
read_code-as_str _ = refl

-- Distinct error codes have distinct spellings, and none is spelled like another.
pub as_str_injective : (c d : ErrorCode) → as_str c ≡ as_str d → c ≡ d
as_str_injective c d h = cc (read_code-as_str c, read_code-as_str d, h)

exit_code-fails : (c : ErrorCode) → (exit_code c ≢ success) × (exit_code c ≢ usage)
unfolding exit_code
exit_code-fails config_not_found = (cc, cc)
exit_code-fails _ = (cc, cc)

-- The number that a failure exits with stands for its exit code, and is neither that of success nor
-- that of a wrong command line.
pub exit_code_round_trip :
    (c : ErrorCode)
    → (from_code (code_of (exit_code c)) ≡ exit_code c)
      × (exit_code c ≢ success)
      × (exit_code c ≢ usage)
exit_code_round_trip c =
    let (not_success, not_usage) = exit_code-fails c in
    (from_code-code_of (exit_code c), not_success, not_usage)
