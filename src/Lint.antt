-- ===== src/Lint.antt =====
-- crates/zapadka-core/src/lint.rs: the rules over the statements of a migration's scripts, and what
-- it takes of config.rs (`Policy`) and report.rs (`Diagnostic`, `Severity`).
-- The message and the hint of a diagnostic are text for people and are left out, as in an `Error`.
-- `findings` is the value that the functions are handed and give back.
pub mod Scripts
pub mod Modes
pub mod Verdicts
pub mod Risks
pub mod Reports
pub mod Command
mod Examples
use zapadka.Common.{
  ℕ, Text, codes, text_eq, Bool, true, false, not, ◌&&◌, List, [], ◌∷◌, ◌++◌, map, Option, none,
  some, ◌==◌, if◌then◌else◌, any, retain, length,
}
use zapadka.Errors.{
  Error, Location, new, at, file, position, execution_mode_unsupported, script_empty,
  script_parse_error, script_transaction_control, script_statement_count, lint_failed,
}
use zapadka.Manifest.{Uuid, Transaction, required, forbidden, Allow, suppression}
use zapadka.Migration.{Migration, Script, ScriptRole, deploy, revert, verify, manifest_path}
use zapadka.Sql.Statements.{
  Statement, StatementKind, AlterTableAction, transaction_control, create_index, create_table,
  alter_table, truncate, rename, vacuum, nontransactional, reindex, other, drop_column, add_column,
  alter_column_type, set_not_null, add_constraint, validate_constraint, other_action,
  is_data_bearing, scans_existing_rows, forbidden_in_transaction, breaks_runner_session,
}
use zapadka.Sql.Parser.{Parser, ParsedScript, parsed, malformed, parse, controls}
use zapadka.Lint.Scripts.{runs_nothing}

pub data Severity : Type 0 where
  error warning note : Severity

pub record Diagnostic : Type 0 where
  pub severity : Severity
  pub code : Text
  pub migration_id : Option Uuid
  pub location : Option Location

-- `Policy`, without the time to wait for the lock.
pub record Policy : Type 0 where
  pub deny : List Text

pub record Capabilities : Type 0 where
  pub can_run_nontransactional : Bool

pub record Findings : Type 0 where
  pub errors : List Error
  pub diagnostics : List Diagnostic

-- The module `codes`.
abbrev pub destructive : Text
destructive = codes "lint.destructive"

abbrev pub table_rewrite : Text
table_rewrite = codes "lint.table_rewrite"

abbrev pub index_without_concurrently : Text
index_without_concurrently = codes "lint.index_without_concurrently"

abbrev pub constraint_scans_table : Text
constraint_scans_table = codes "lint.constraint_scans_table"

abbrev pub compatibility_window : Text
compatibility_window = codes "lint.compatibility_window"

abbrev pub empty_script : Text
empty_script = codes "lint.empty_script"

unfoldable pub all_codes : List Text
all_codes =
    destructive ∷ table_rewrite ∷ index_without_concurrently ∷ constraint_scans_table
    ∷ compatibility_window ∷ empty_script ∷ []

-- `findings.errors.push` and `findings.diagnostics.push`.
unfoldable pub push_error : Error → Findings → Findings
push_error e f = record f { errors = f.errors ++ e ∷ [] }

unfoldable pub push : Diagnostic → Findings → Findings
push d f = record f { diagnostics = f.diagnostics ++ d ∷ [] }

abbrev severity_of : Option Allow → Bool → Severity
severity_of (some allow) denied = note
severity_of none true = error
severity_of none false = warning

-- `warn`: a suppression wins over a denial.
unfoldable pub warn : Policy → Migration → Script → Text → Option ℕ → Diagnostic
warn policy m script code line = record {
  severity = severity_of (suppression m.manifest code) (any (λ d. text_eq d code) policy.deny);
  code = code;
  migration_id = some m.id;
  location = some (record { path = script.relative_path; line = line; column = none });
}

-- `check_transaction_control`: the loop over the statements that control the transaction.
unfoldable pub check_transaction_control : Script → List Statement → Findings → Findings
check_transaction_control script [] f = f
check_transaction_control script (s ∷ rest) f =
    check_transaction_control script rest
      (push_error (at (position script.relative_path s.line 1) (new script_transaction_control)) f)

-- The `Required` arm of `check_execution_mode`.
unfoldable pub check_required : Script → List Statement → Findings → Findings
check_required script [] f = f
check_required script (s ∷ rest) f =
    check_required script rest (elim (forbidden_in_transaction s.kind) [
      | none ↦ f
      | some construct ↦
          push_error (at (position script.relative_path s.line 1) (new script_statement_count)) f
    ])

-- The slice pattern `[statement]` with a test on the statement's kind.
abbrev pub only : List Statement → (StatementKind → Bool) → Bool
only [] test = false
only (s ∷ []) test = test s.kind
only (s ∷ t ∷ rest) test = false

abbrev pub absent : Option Text → Bool
absent none = true
absent (some t) = false

abbrev pub present : Option Text → Bool
present none = false
present (some t) = true

unfoldable pub push_when : Bool → Error → Findings → Findings
push_when b e f = if b then push_error e f else f

-- The `Forbidden` arm of `check_execution_mode`.
unfoldable pub check_forbidden : Script → List Statement → Findings → Findings
check_forbidden script statements f =
    let counted =
      push_when (not (length statements == 1))
        (at (file script.relative_path) (new script_statement_count)) f in
    let kept =
      push_when (only statements (λ k. present (breaks_runner_session k)))
        (at (file script.relative_path) (new execution_mode_unsupported)) counted in
    push_when (only statements (λ k. absent (forbidden_in_transaction k)))
      (at (file script.relative_path) (new execution_mode_unsupported)) kept

-- `check_execution_mode`.
unfoldable pub check_execution_mode : Transaction → Script → List Statement → Findings → Findings
check_execution_mode required = check_required
check_execution_mode forbidden = check_forbidden

-- The rule that an action of ALTER TABLE falls under, in `warn_alter_table`.
unfoldable pub alter_rule : AlterTableAction → Option Text
alter_rule (drop_column name cascade) = some destructive
alter_rule (alter_column_type name) = some table_rewrite
alter_rule (add_column name is_not_null calls) = if calls then some table_rewrite else none
alter_rule (set_not_null name) = some constraint_scans_table
alter_rule (add_constraint kind not_valid) =
    if not not_valid && scans_existing_rows kind then some constraint_scans_table else none
alter_rule (validate_constraint name) = none
alter_rule (other_action name) = none

module _ (policy : Policy) (m : Migration) (script : Script) where
  abbrev pub warn_by : Option Text → Option ℕ → Findings → Findings
  warn_by none line f = f
  warn_by (some code) line f = push (warn policy m script code line) f

  -- `warn_alter_table`, over the actions of a statement.
  unfoldable pub warn_alter_table : List AlterTableAction → Option ℕ → Findings → Findings
  warn_alter_table [] line f = f
  warn_alter_table (action ∷ rest) line f =
      warn_alter_table rest line (warn_by (alter_rule action) line f)

  -- The arms of `collect_warnings`.
  unfoldable pub warn_statement : StatementKind → Option ℕ → Findings → Findings
  warn_statement (StatementKind.drop object cascade concurrent) line f =
      warn_by (if is_data_bearing object then some destructive else none) line f
  warn_statement (truncate cascade) line f = push (warn policy m script destructive line) f
  warn_statement (create_index relation concurrent is_unique) line f =
      warn_by (if concurrent then none else some index_without_concurrently) line f
  warn_statement (rename object to) line f = push (warn policy m script compatibility_window line) f
  warn_statement (alter_table relation actions) line f = warn_alter_table actions line f
  warn_statement (transaction_control operation) line f = f
  warn_statement (create_table relation) line f = f
  warn_statement vacuum line f = f
  warn_statement (nontransactional construct) line f = f
  warn_statement (reindex concurrent) line f = f
  warn_statement other line f = f

  unfoldable pub warn_statements : List Statement → Findings → Findings
  warn_statements [] f = f
  warn_statements (s ∷ rest) f = warn_statements rest (warn_statement s.kind (some s.line) f)

abbrev pub is_deploy : ScriptRole → Bool
is_deploy deploy = true
is_deploy revert = false
is_deploy verify = false

abbrev pub is_verify : ScriptRole → Bool
is_verify verify = true
is_verify deploy = false
is_verify revert = false

-- `collect_warnings`.
unfoldable pub collect_warnings : Policy → Migration → Script → List Statement → Findings → Findings
collect_warnings policy m script statements f =
    if is_deploy script.role then warn_statements policy m script statements f else f

-- The mode asks for what this build cannot do.
abbrev pub unsupported : Transaction → Capabilities → Bool
unsupported required can = false
unsupported forbidden can = not can.can_run_nontransactional

module _ (parser : Parser) (policy : Policy) (m : Migration) where
  -- The checks of a script that runs something and parses.
  abbrev pub check_parsed : Transaction → Script → ParsedScript → Findings → Findings
  check_parsed mode script p f = collect_warnings policy m script p.statements (
      check_execution_mode mode script p.statements
        (check_transaction_control script (controls p) f))

  -- `check_script`.
  unfoldable pub check_script : Transaction → Script → Findings → Findings
  check_script mode script f =
      if runs_nothing parser script.sql
      then (if is_verify script.role
          then push_error (at (file script.relative_path) (new script_empty)) f
          else push (warn policy m script empty_script none) f)
      else elim (parse parser script.sql) [
        | malformed e ↦
            push_error (at (position script.relative_path e.line e.column) (new script_parse_error))
              f
        | parsed p ↦ check_parsed mode script p f
      ]

  abbrev pub check_optional : Option Script → Findings → Findings
  check_optional none f = f
  check_optional (some script) f = check_script required script f

  -- `check_migration`.
  unfoldable pub check_migration : Capabilities → Findings → Findings
  check_migration can f =
      let mode = m.manifest.transaction in
      let begun =
        push_when (unsupported mode can)
          (at (file (manifest_path m)) (new execution_mode_unsupported)) f in
      check_optional m.verify (check_optional m.revert (check_script mode m.deploy begun))

module _ (parser : Parser) (policy : Policy) (can : Capabilities) where
  -- The loop of `check`.
  unfoldable pub check_migrations : List Migration → Findings → Findings
  check_migrations [] f = f
  check_migrations (m ∷ rest) f = check_migrations rest (check_migration parser policy m can f)

  -- `check`.
  abbrev pub check : List Migration → Findings
  check ms = check_migrations ms (record { errors = []; diagnostics = [] })

abbrev pub is_error : Severity → Bool
is_error error = true
is_error warning = false
is_error note = false

abbrev pub promoted : Diagnostic → Error
promoted d = elim d.location [ none ↦ new lint_failed | some l ↦ at l (new lint_failed) ]

-- `apply_policy`.
unfoldable pub apply_policy : Findings → Findings
apply_policy f = record f {
  errors =
      f.errors ++ map promoted (retain (λ (d : Diagnostic). is_error d.severity) f.diagnostics);
}
