-- ===== src/Revert/Examples.antt =====
-- Reverting the second migration of the project of Graph/Examples while nothing above it is applied.
use zapadka.Common.{◌≡◌, refl, [], ◌∷◌, ℕ, arith, List, some, codes}
use zapadka.Errors.{ok}
use zapadka.Manifest.{Uuid, reversible}
use zapadka.Manifest.Examples.{library}
use zapadka.Migration.{Migration, revert}
use zapadka.Graph.Examples.{migration, diamond, built, build-diamond, program}
use zapadka.Registry.{AppliedMigration, applied_row}
use zapadka.Server.{Runner}
use zapadka.Lint.Scripts.{runs_nothing}
use zapadka.Sql.Parser.{parse}
use zapadka.Runner.{revert_one}
use zapadka.Runner.Examples.{server, granted, runner}
use zapadka.Deploy.Steps.{applied_to}
use zapadka.Deploy.Runs.{IsClosed}
use zapadka.Revert.{check_revertible}
use zapadka.Revert.Leaves.{revert_one-IsClosed}

abbrev second : Migration
second = record (migration 2 (1 ∷ [])) {
  manifest = record (migration 2 (1 ∷ [])).manifest { reversibility = reversible };
  revert = some (record {
    role = revert;
    relative_path = codes "revert.sql";
    sql = codes "SELECT 2";
    sha256 = [];
  });
}

abbrev rows : List (Uuid × AppliedMigration)
rows = (1, applied_row (migration 1 []) []) ∷ (2, applied_row second []) ∷ []

abbrev two_applied : Runner ℕ
two_applied = record runner {
  db = record runner.db { state = record runner.db.state { applied = rows } };
}

may_revert : check_revertible library built two_applied.db.state second ≡ ok tt
unfolding program check_revertible runs_nothing parse
may_revert = refl

closed : IsClosed built (applied_to two_applied)
unfolding program
closed k d h n = ground arith

revert_one-IsClosed_example :
    IsClosed built (applied_to (revert_one library server granted second two_applied).0)
revert_one-IsClosed_example =
    revert_one-IsClosed server library granted diamond built second two_applied build-diamond
      may_revert closed
