-- ===== src/Runner/Examples.antt =====
-- A server that counts the scripts it ran, and the theorems at one deploy and one revert.
use zapadka.Common.{ℕ, suc, ◌≡◌, true, [], codes, some, Text, ◌⊎◌}
use zapadka.Errors.{ok}
use zapadka.Manifest.Examples.{library}
use zapadka.Migration.{Migration, Script, revert, structural_definition}
use zapadka.Graph.Examples.{migration}
use zapadka.Server.{Server, Wire, committed, answered, Runner}
use zapadka.Runner.{deploy_one, deploy_nontransactional, revert_one}
use zapadka.Runner.Transactions.{IsUndone}
use zapadka.Runner.Deploying.{IsDeployed, deploy_one_atomic}
use zapadka.Runner.Reverting.{IsReverted, revert_one_atomic}
use zapadka.Runner.Nontransactional.{IsPending, IsFinished, deploy_nontransactional_recorded}

abbrev pub server : Server ℕ
server = record { run_script = λ sql s. some (suc s); run_alone = λ sql s. (suc s, true) }

abbrev pub granted : Wire
granted = record {
  begin = true;
  timeouts = true;
  row = true;
  cleared = true;
  event = true;
  each_row = λ n. true;
  each_event = λ n. true;
  commit = committed;
  late_event = committed;
  attempt = true;
  attempt_event = true;
  attempt_commit = committed;
  finish = true;
  statement = answered;
}

abbrev pub runner : Runner ℕ
runner = record {
  run_id = 7;
  sequence = 0;
  db = record {
    schema = 0;
    state = record { format_version = some 3; project_id = some 1; applied = []; unresolved = [] };
    events = [];
  };
}

abbrev reversible_one : Migration
reversible_one = record (migration 2 []) {
  revert = some (record {
    role = revert;
    relative_path = codes "revert.sql";
    sql = codes "SELECT 2";
    sha256 = [];
  });
}

deploy_one_atomic_example :
    IsUndone runner (deploy_one library server granted (migration 1 []) runner)
    ⊎ (definition : Text) × (structural_definition library (migration 1 []) ≡ ok definition)
      × IsDeployed server library
          (migration 1 [])
          definition
          runner
          (deploy_one library server granted (migration 1 []) runner)
deploy_one_atomic_example = deploy_one_atomic server library granted (migration 1 []) runner

revert_one_atomic_example :
    IsUndone runner (revert_one library server granted reversible_one runner)
    ⊎ (script : Script) × (reversible_one.revert ≡ some script)
      × IsReverted server library reversible_one script runner
          (revert_one library server granted reversible_one runner)
revert_one_atomic_example = revert_one_atomic server library granted reversible_one runner

deploy_nontransactional_recorded_example :
    IsUndone runner (deploy_nontransactional library server granted (migration 1 []) runner)
    ⊎ (definition : Text) × (structural_definition library (migration 1 []) ≡ ok definition)
      × (IsPending server
            (migration 1 [])
            definition
            runner
            (deploy_nontransactional library server granted (migration 1 []) runner)
          ⊎ IsFinished server
              (migration 1 [])
              definition
              runner
              (deploy_nontransactional library server granted (migration 1 []) runner))
deploy_nontransactional_recorded_example =
    deploy_nontransactional_recorded server library granted (migration 1 []) runner
