-- ===== src/Deploy/Examples.antt =====
-- The project of Graph/Examples deployed to an empty registry, and the theorems at it.
use zapadka.Common.{
  ◌≡◌, refl, true, ◌||◌, [], ◌∷◌, ◌++◌, List, contains, get, some, none, Text, codes, arith,
}
use zapadka.Errors.{ok}
use zapadka.Sql.Canonical.{canonicalize}
use zapadka.Manifest.{Uuid, structural_definition_sha256, envelope}
use zapadka.Manifest.Examples.{library}
use zapadka.Migration.{Migration, structural_definition}
use zapadka.Graph.Facts.{known}
use zapadka.Graph.Examples.{migration, diamond, built, build-diamond, diamond-AllDistinct, program}
use zapadka.Server.{Wire}
use zapadka.Runner.Examples.{server, granted, runner}
use zapadka.History.{
  Plan, plan, check_dependencies_applied, changed, check_unchanged, check_row, check_rows,
  ids_where,
}
use zapadka.Deploy.{MigrationResult, apply_all}
use zapadka.Deploy.Steps.{applied_to}
use zapadka.Deploy.Accounts.{IsSelectable, IsReport, apply_all_accounts}
use zapadka.Deploy.Runs.{IsClosed}
use zapadka.Deploy.Planned.{planned_run_keeps}

abbrev wires : Uuid → Wire × Wire
wires id = (granted, granted)

abbrev planned : Plan
planned = record { pending = 1 ∷ 2 ∷ 3 ∷ 4 ∷ []; applied = [] }

plan-empty : plan library built [] ≡ ok planned
unfolding program plan check_dependencies_applied changed check_unchanged check_row check_rows
    ids_where
plan-empty = refl

same_sql :
    (k : Uuid) (m : Migration) → get built.migrations k ≡ some m → m.deploy.sql ≡ codes "SELECT 1"
unfolding program
same_sql k m h = ground arith

parses :
    (k : Uuid) (m : Migration)
    → get built.migrations k ≡ some m
    → (definition : Text) × (structural_definition library m ≡ ok definition)
unfolding structural_definition structural_definition_sha256 canonicalize
parses k m h = (envelope library m.manifest (codes "SELECT 1"), rw (same_sql k m h) refl)

selectable : IsSelectable library built 1
unfolding program structural_definition structural_definition_sha256 canonicalize
selectable = record {
  source = migration 1 [];
  found = refl;
  identity = refl;
  definition = _;
  parses = refl;
}

planned_run_keeps_example :
    IsClosed built
      (applied_to (apply_all library server wires true built planned.pending runner [] none).runner)
    × ((k : Uuid)
        → applied_to runner k ≡ true
        → applied_to
            (apply_all library server wires true built planned.pending runner [] none).runner
            k
          ≡ true)
    × ((k : Uuid)
        → applied_to
            (apply_all library server wires true built planned.pending runner [] none).runner
            k
          ≡ true
        → (applied_to runner k || contains planned.pending k) ≡ true)
    × ((apply_all library server wires true built planned.pending runner [] none).outcome ≡ ok tt
        → (k : Uuid) → known built k ≡ true
        → applied_to
            (apply_all library server wires true built planned.pending runner [] none).runner
            k
          ≡ true)
planned_run_keeps_example =
    planned_run_keeps library server wires true diamond built runner planned diamond-AllDistinct
      build-diamond plan-empty parses

apply_all_accounts_example :
    (xs : List MigrationResult) × ((apply_all library server wires true built
        (1 ∷ [])
        runner
        []
        none).migrations
      ≡ [] ++ xs)
    × IsReport
        (1 ∷ [])
        xs
        (apply_all library server wires true built (1 ∷ []) runner [] none).outcome
apply_all_accounts_example =
    apply_all_accounts library built server wires true (1 ∷ []) runner [] (selectable, tt)
