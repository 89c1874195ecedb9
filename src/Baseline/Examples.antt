-- ===== src/Baseline/Examples.antt =====
-- Adopting the second migration of the project of Graph/Examples in a database that holds none.
use zapadka.Common.{◌≡◌, refl, true, false, ◌⊎◌, ◌↔◌}
use zapadka.Errors.{Error, ok, err}
use zapadka.Manifest.{Uuid, structural_definition_sha256}
use zapadka.Sql.Canonical.{canonicalize}
use zapadka.Manifest.Examples.{library}
use zapadka.Graph.Closure.{Needs}
use zapadka.Graph.Facts.{known}
use zapadka.Graph.Examples.{diamond, built, build-diamond, diamond-AllDistinct, program}
use zapadka.Migration.{structural_definition}
use zapadka.Graph.{closure_of}
use zapadka.History.{plan, check_rows}
use zapadka.Registry.{record_applied, check_project, upgrade_in_transaction}
use zapadka.Server.{committed, next_sequence, record_event, settle, commit}
use zapadka.Runner.{definitions_of, baseline, baseline_rows}
use zapadka.Runner.Examples.{server, granted, runner}
use zapadka.Deploy.Steps.{applied_to}
use zapadka.Target.{
  Access, upgrade, refresh_state, require_not_blocked, claim_and_upgrade, upgrade_owned,
}
use zapadka.Baseline.{baseline_under_lock, pending_of, record_pending}
use zapadka.Baseline.Adopted.{baseline_under_lock_atomic}

abbrev access : Access
access = record {
  project_id = 1;
  read = ok tt;
  owned = ok tt;
  still_owned = ok tt;
  locked = ok tt;
  released = ok tt;
  answered = true;
  upgrade_commit = committed;
}

is_known : known built 2 ≡ true
unfolding program
is_known = refl

-- The run has no error, and holds the target with what it needs and no more.
adopts_two :
    ((baseline_under_lock library server granted access built 2 runner).1 ≡ ok tt)
    × (applied_to (baseline_under_lock library server granted access built 2 runner).0 1 ≡ true)
    × (applied_to (baseline_under_lock library server granted access built 2 runner).0 2 ≡ true)
    × (applied_to (baseline_under_lock library server granted access built 2 runner).0 3 ≡ false)
unfolding program baseline_under_lock refresh_state require_not_blocked claim_and_upgrade
    upgrade_owned pending_of record_pending definitions_of baseline baseline_rows record_applied
    record_event settle commit structural_definition plan closure_of check_project
    upgrade_in_transaction check_rows structural_definition_sha256 canonicalize next_sequence
    upgrade
adopts_two = (refl, refl, refl, refl)

baseline_under_lock_atomic_example :
    ((baseline_under_lock library server granted access built 2 runner).0.db.schema
      ≡ runner.db.schema)
    × (((x : Error) × ((baseline_under_lock library server granted access built 2 runner).1
              ≡ err x))
          × ((k : Uuid)
              → applied_to (baseline_under_lock library server granted access built 2 runner).0 k
                ≡ applied_to runner k)
        ⊎ ((k : Uuid)
            → (applied_to (baseline_under_lock library server granted access built 2 runner).0 k
                ≡ true)
              ↔ (applied_to runner k ≡ true ⊎ Needs built 2 k)))
baseline_under_lock_atomic_example =
    baseline_under_lock_atomic library server granted access diamond built 2 runner
      diamond-AllDistinct build-diamond is_known
