-- ===== src/Errors.antt =====
-- crates/zapadka-core/src/error.rs: the error codes, their stable spelling and the exit codes.
-- An `Error` keeps its code and its location. Its message, hint, SQLSTATE, detail and context are
-- text for people, which no code of the program reads back, and are left out.
pub mod Codes
mod Examples
use zapadka.Common.{
  ℕ, Text, codes, Option, none, some, ◌≡◌, refl, ◌==◌, if◌then◌else◌, ◌⊎◌, inl, inr,
}

pub data ErrorCode : Type 0 where
  config_not_found config_invalid config_unsupported_format_version : ErrorCode
  target_unknown target_invalid : ErrorCode
  manifest_invalid manifest_unsupported_format_version : ErrorCode
  migration_missing_script migration_directory_mismatch migration_duplicate_id : ErrorCode
  migration_unknown_dependency migration_reversibility_invalid migration_id_invalid : ErrorCode
  graph_cycle graph_self_dependency : ErrorCode
  script_parse_error script_transaction_control script_statement_count script_empty : ErrorCode
  execution_mode_unsupported : ErrorCode
  history_migration_missing history_definition_changed history_dependencies_changed : ErrorCode
  registry_format_too_new registry_project_mismatch registry_not_initialized : ErrorCode
  registry_upgrade_failed : ErrorCode
  lock_unavailable : ErrorCode
  connection_failed server_unsupported deploy_failed verify_failed revert_failed : ErrorCode
  deploy_outcome_unknown registry_blocked nothing_to_resolve : ErrorCode
  already_exists selector_matched_nothing lint_failed format_check_failed : ErrorCode
  format_deploy_rewrite_denied : ErrorCode
  io internal : ErrorCode

pub data ExitCode : Type 0 where
  success usage project validation history lock target registry execution internal : ExitCode

-- `ErrorCode::as_str`.
unfoldable pub as_str : ErrorCode → Text
as_str config_not_found = codes "config.not_found"
as_str config_invalid = codes "config.invalid"
as_str config_unsupported_format_version = codes "config.unsupported_format_version"
as_str target_unknown = codes "target.unknown"
as_str target_invalid = codes "target.invalid"
as_str manifest_invalid = codes "manifest.invalid"
as_str manifest_unsupported_format_version = codes "manifest.unsupported_format_version"
as_str migration_missing_script = codes "migration.missing_script"
as_str migration_directory_mismatch = codes "migration.directory_mismatch"
as_str migration_duplicate_id = codes "migration.duplicate_id"
as_str migration_unknown_dependency = codes "migration.unknown_dependency"
as_str migration_reversibility_invalid = codes "migration.reversibility_invalid"
as_str migration_id_invalid = codes "migration.id_invalid"
as_str graph_cycle = codes "graph.cycle"
as_str graph_self_dependency = codes "graph.self_dependency"
as_str script_parse_error = codes "script.parse_error"
as_str script_transaction_control = codes "script.transaction_control"
as_str script_statement_count = codes "script.statement_count"
as_str script_empty = codes "script.empty"
as_str execution_mode_unsupported = codes "execution.mode_unsupported"
as_str history_migration_missing = codes "history.migration_missing"
as_str history_definition_changed = codes "history.definition_changed"
as_str history_dependencies_changed = codes "history.dependencies_changed"
as_str registry_format_too_new = codes "registry.format_too_new"
as_str registry_project_mismatch = codes "registry.project_mismatch"
as_str registry_not_initialized = codes "registry.not_initialized"
as_str registry_upgrade_failed = codes "registry.upgrade_failed"
as_str lock_unavailable = codes "lock.unavailable"
as_str connection_failed = codes "target.connection_failed"
as_str server_unsupported = codes "target.server_unsupported"
as_str deploy_failed = codes "deploy.failed"
as_str verify_failed = codes "verify.failed"
as_str revert_failed = codes "revert.failed"
as_str deploy_outcome_unknown = codes "deploy.outcome_unknown"
as_str registry_blocked = codes "registry.blocked"
as_str nothing_to_resolve = codes "resolve.nothing_to_resolve"
as_str already_exists = codes "project.already_exists"
as_str selector_matched_nothing = codes "selector.matched_nothing"
as_str lint_failed = codes "lint.failed"
as_str format_check_failed = codes "format.check_failed"
as_str format_deploy_rewrite_denied = codes "format.deploy_rewrite_denied"
as_str io = codes "io.error"
as_str ErrorCode.internal = codes "internal"

-- `ErrorCode::exit_code`.
unfoldable pub exit_code : ErrorCode → ExitCode
exit_code config_not_found = project
exit_code config_invalid = project
exit_code config_unsupported_format_version = project
exit_code target_unknown = project
exit_code target_invalid = project
exit_code already_exists = project
exit_code selector_matched_nothing = project
exit_code io = project
exit_code manifest_invalid = validation
exit_code manifest_unsupported_format_version = validation
exit_code migration_missing_script = validation
exit_code migration_directory_mismatch = validation
exit_code migration_duplicate_id = validation
exit_code migration_unknown_dependency = validation
exit_code migration_reversibility_invalid = validation
exit_code migration_id_invalid = validation
exit_code graph_cycle = validation
exit_code graph_self_dependency = validation
exit_code script_parse_error = validation
exit_code script_transaction_control = validation
exit_code script_statement_count = validation
exit_code script_empty = validation
exit_code execution_mode_unsupported = validation
exit_code lint_failed = validation
exit_code format_check_failed = validation
exit_code format_deploy_rewrite_denied = validation
exit_code history_migration_missing = history
exit_code history_definition_changed = history
exit_code history_dependencies_changed = history
exit_code registry_format_too_new = registry
exit_code registry_project_mismatch = registry
exit_code registry_not_initialized = registry
exit_code registry_upgrade_failed = registry
exit_code registry_blocked = registry
exit_code nothing_to_resolve = registry
exit_code lock_unavailable = lock
exit_code connection_failed = target
exit_code server_unsupported = target
exit_code deploy_failed = execution
exit_code verify_failed = execution
exit_code revert_failed = execution
exit_code deploy_outcome_unknown = execution
exit_code ErrorCode.internal = ExitCode.internal

-- `ExitCode::code`: the discriminants.
unfoldable pub code_of : ExitCode → ℕ
code_of success = 0
code_of usage = 2
code_of project = 3
code_of validation = 4
code_of history = 5
code_of lock = 6
code_of target = 7
code_of registry = 8
code_of execution = 9
code_of ExitCode.internal = 70

-- `ExitCode::from_code`, on the codes that are not negative.
unfoldable pub from_code : ℕ → ExitCode
from_code n =
    if n == 0
    then success
    else if n == 2
    then usage
    else if n == 3
    then project
    else if n == 4
    then validation
    else if n == 5
    then history
    else if n == 6
    then lock
    else if n == 7
    then target
    else if n == 8
    then registry
    else if n == 9
    then execution
    else ExitCode.internal

-- `report::Location`.
pub record Location : Type 0 where
  pub path : Text
  pub line : Option ℕ
  pub column : Option ℕ

-- `Location::file` and `Location::at`.
abbrev pub file : Text → Location
file path = record { path = path; line = none; column = none }

abbrev pub position : Text → ℕ → ℕ → Location
position path line column = record { path = path; line = some line; column = some column }

pub record Error : Type 0 where
  pub code : ErrorCode
  pub location : Option Location

-- `Error::new` and `Error::at`.
abbrev pub new : ErrorCode → Error
new code = record { code = code; location = none }

abbrev pub at : Location → Error → Error
at location e = record e { location = some location }

-- `Result<T>`: every fallible function of the program fails with an `Error`.
pub data Result {ℓ} (T : Type ℓ) : Type ℓ where
  ok : T → Result T
  err : Error → Result T

-- The `?` operator, and its use on a call whose value is dropped.
infixl 5 ◌>>◌ ◌>>=◌
abbrev pub ◌>>=◌ {ℓ κ} : {T : Type ℓ} {U : Type κ} → Result T → (T → Result U) → Result U
call >>= then_do = elim call [ err failure ↦ err failure | ok value ↦ then_do value ]

abbrev pub ◌>>◌ {ℓ κ} : {T : Type ℓ} {U : Type κ} → Result T → Result U → Result U
call >> next = elim call [ err failure ↦ err failure | ok value ↦ next ]

pub Result-cases {ℓ} :
    {T : Type ℓ} (r : Result T) → ((e : Error) × (r ≡ err e)) ⊎ ((t : T) × (r ≡ ok t))
Result-cases (err e) = inl (e, refl)
Result-cases (ok t) = inr (t, refl)

-- Both calls of a chain that succeeded did.
pub >>=-eq-ok {ℓ κ} :
    {T : Type ℓ} {U : Type κ} (call : Result T) (then_do : T → Result U) {u : U}
    → (call >>= then_do) ≡ ok u
    → (t : T) × (call ≡ ok t) × (then_do t ≡ ok u)
>>=-eq-ok (err e) then_do h = cc
>>=-eq-ok (ok t) then_do h = (t, refl, h)
