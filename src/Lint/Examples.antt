-- ===== src/Lint/Examples.antt =====
-- A project whose second migration drops a table, and the theorems at it.
use zapadka.Common.{
  ◌≡◌, ◌↔◌, refl, codes, true, false, [], ◌∷◌, some, none, All, Member, first, later,
}
use zapadka.Errors.{Error, ok, err}
use zapadka.Manifest.{suppression}
use zapadka.Migration.{Migration, deploy, script}
use zapadka.Graph.{Graph, deployment_order}
use zapadka.Graph.Examples.{migration, built, program}
use zapadka.Sql.Statements.{
  Statement, StatementKind, table, is_data_bearing, forbidden_in_transaction,
  is_transaction_control,
}
use zapadka.Sql.Lines.{before, newlines_from}
use zapadka.Sql.Parser.{ParsedScript, parse}
use zapadka.Sql.Classify.{arms_of, drop_object, cascade}
use zapadka.Sql.Values.{flag, text_of}
use zapadka.Sql.Examples.{parser}
use zapadka.Lint.Scripts.{runs_nothing}
use zapadka.Lint.{
  Diagnostic, Policy, Capabilities, warn, destructive, check, apply_policy, check_migrations,
  check_migration, check_script, push, push_when, check_transaction_control, check_execution_mode,
  check_required, collect_warnings, warn_statements, warn_statement,
}
use zapadka.Lint.Verdicts.{IsExecutable}
use zapadka.Lint.Risks.{drops_data}
use zapadka.Lint.Reports.{Deploys, check-reports}
use zapadka.Lint.Command.{
  validate, IsHarmless, IsOwned, verdict_iff, validate-IsOwned, validate-denies,
}

abbrev strict : Policy
strict = record { deny = destructive ∷ [] }

abbrev all_modes : Capabilities
all_modes = record { can_run_nontransactional = true }

abbrev dropping : Migration
dropping = record (migration 1 []) {
  deploy = record {
    role = deploy;
    relative_path = codes "migrations/m/deploy.sql";
    sql = codes "DROP TABLE t";
    sha256 = [];
  };
}

abbrev drop_table : Statement
drop_table = record {
  node_type = codes "DropStmt";
  kind = StatementKind.drop table false false;
  location = 0;
  length = none;
  line = 1;
}

abbrev parsed_drop : ParsedScript
parsed_drop = record { parser_version = 180004; statements = drop_table ∷ [] }

deploys : Deploys parser strict all_modes dropping drop_table
unfolding runs_nothing parse arms_of drop_object cascade flag text_of before newlines_from
deploys = record {
  deployed = refl;
  something = refl;
  text = parsed_drop;
  reads = refl;
  among = first;
}

check-reports_example :
    (d : Diagnostic) × Member d
      (check parser strict all_modes (migration 2 [] ∷ dropping ∷ [])).diagnostics
    × (d.code ≡ destructive)
    × (d.migration_id ≡ some dropping.id)
    × (d.location
        ≡ some (record { path = dropping.deploy.relative_path; line = some 1; column = none }))
unfolding is_data_bearing
check-reports_example =
    check-reports parser strict all_modes (migration 2 [] ∷ dropping ∷ []) dropping drop_table
      destructive (later first) deploys (drops_data refl)

verdict_iff_example : ((validate parser built strict all_modes []).1 ≡ ok tt) ↔ (
    All (IsExecutable parser all_modes) (deployment_order built)
    × All IsHarmless (check parser strict all_modes (deployment_order built)).diagnostics)
verdict_iff_example = verdict_iff parser built strict all_modes []

abbrev lone : Graph
lone = record { migrations = (1, dropping) ∷ []; dependents = (1, []) ∷ [] }

is_planned : Member dropping (deployment_order lone)
unfolding program
is_planned = first

abbrev lenient : Policy
lenient = record { deny = [] }

passes : (validate parser lone lenient all_modes []).1 ≡ ok tt
unfolding program validate apply_policy check_migrations check_migration check_script warn push
    push_when check_transaction_control check_execution_mode check_required collect_warnings
    warn_statements warn_statement is_data_bearing forbidden_in_transaction is_transaction_control
    suppression runs_nothing parse arms_of drop_object cascade flag text_of before newlines_from
passes = refl

is_deploy_script : script dropping deploy ≡ some dropping.deploy
unfolding script
is_deploy_script = refl

validate-IsOwned_example : IsOwned parser dropping.deploy
validate-IsOwned_example =
    validate-IsOwned parser lone lenient all_modes [] dropping deploy dropping.deploy passes
      is_planned is_deploy_script

unsuppressed : suppression dropping.manifest destructive ≡ none
unfolding suppression
unsuppressed = refl

validate-denies_example : (e : Error) × ((validate parser lone strict all_modes []).1 ≡ err e)
unfolding is_data_bearing
validate-denies_example =
    validate-denies parser lone strict all_modes [] dropping drop_table destructive is_planned
      deploys (drops_data refl) refl unsuppressed
