-- ===== src/Runner.antt =====
-- crates/zapadka-pg/src/execute.rs: applying, verifying, reverting, baselining and resolving
-- migrations, each operation with what the server answers to it (`Wire` of Server.antt).
pub mod Transactions
pub mod Numbering
pub mod Deploying
pub mod Reverting
pub mod Nontransactional
pub mod Operations
pub mod Baselining
pub mod Ledger
pub mod Examples
use zapadka.Common.{
  ℕ, zero, suc, Text, codes, text_eq, Bool, true, false, not, ◌&&◌, ◌||◌, List, [], ◌∷◌, ◌++◌,
  Option, none, some, ◌==◌, if◌then◌else◌, get, any, is_empty, trim,
}
use zapadka.Errors.{
  Error, Result, ok, err, new, at, file, position, ◌>>=◌, ◌>>◌, script_parse_error,
  script_transaction_control, deploy_failed, revert_failed, verify_failed, migration_missing_script,
  deploy_outcome_unknown, script_empty,
}
use zapadka.Manifest.{Uuid, Library, guard, as_str}
use zapadka.Migration.{Migration, Script, ScriptRole, deploy, revert, verify, structural_definition}
use zapadka.Registry.{
  AppliedMigration, UnresolvedAttempt, RegistryState, registry_failed, structural_v1,
  check_definition_algorithm, record_applied, remove_applied, record_attempt, clear_attempt,
  record_applied_from_attempt,
}
use zapadka.Lint.Scripts.{ensure_runner_owns_transaction, runs_nothing}
use zapadka.Server.{
  Server, Commit, committed, refused, lost, Reply, answered, dropped, Wire, Event, Database, Runner,
  event_of, script_failed, execute, with_state, next_sequence, record_event, record_late, settle,
  close, after_failure,
}

module _ {ℓ} {S : Type ℓ} (lib : Library) (server : Server S) (w : Wire) where
  abbrev pub deploy_event : Migration → Text → Text → Text → Option Error → Event
  deploy_event m mode outcome definition e =
      event_of (codes "deploy") outcome m mode (definition, structural_v1) (some deploy)
        (some m.deploy.sha256) e

  -- `deploy_inner`.
  unfoldable pub deploy_staged : Migration → Text → Database S → Result (Database S)
  deploy_staged m definition db = do
    guard w.begin registry_failed
    guard w.timeouts registry_failed
    ensure_runner_owns_transaction lib.parser m.deploy.sql m.deploy.relative_path
    changed ← execute server m.deploy.sql (script_failed deploy m.deploy.relative_path) db
    with_state changed (record_applied w.row m definition changed.state)

  unfoldable pub deploy_inner : Migration → Text → Runner S → Runner S × Result (Unit {0})
  deploy_inner m definition r =
      close w.event w.commit
        (deploy_event m (as_str m.manifest.transaction) (codes "succeeded") definition none) ok
        (deploy_staged m definition r.db) r

  -- `Runner::deploy`.
  unfoldable pub deploy_one : Migration → Runner S → Runner S × Result (Unit {0})
  deploy_one m r = elim (structural_definition lib m) [
    | err e ↦ (r, err e)
    | ok definition ↦
        after_failure w.late_event
          (λ e. deploy_event m (as_str m.manifest.transaction) (codes "failed") definition (some e))
          (deploy_inner m definition r)
  ]

  -- `Runner::record_attempt`.
  unfoldable pub begin_attempt : Migration → Text → Runner S → Runner S × Result (Unit {0})
  begin_attempt m definition r =
      close w.attempt_event w.attempt_commit
        (deploy_event m (codes "forbidden") (codes "attempted") definition none) ok
        (guard w.begin registry_failed
          >> with_state r.db (record_attempt w.attempt m definition r.db.state))
        r

  -- `Runner::finish_attempt`.
  unfoldable pub finish_attempt : Migration → Text → Runner S → Runner S × Result (Unit {0})
  finish_attempt m definition r =
      close w.event w.commit
        (deploy_event m (codes "forbidden") (codes "succeeded") definition none) ok
        (guard w.finish registry_failed
          >> with_state r.db
              (record_applied w.row m definition r.db.state >>= clear_attempt w.cleared m.id))
        r

  -- The statement itself, and what its answer leads to.
  unfoldable pub run_statement : Migration → Text → Runner S → Runner S × Result (Unit {0})
  run_statement m definition r =
      let (left, succeeded) = server.run_alone m.deploy.sql r.db.schema in
      elim w.statement [
        | answered ↦
            let ran = record r { db = record r.db { schema = left } } in
            elim succeeded [
              | true ↦ finish_attempt m definition ran
              | false ↦
                  after_failure w.late_event
                    (λ e. deploy_event m (codes "forbidden") (codes "failed") definition (some e))
                    (ran, err (script_failed deploy m.deploy.relative_path))
            ]
        | dropped all_the_same ↦
            after_failure w.late_event
              (λ e. deploy_event m (codes "forbidden") (codes "unknown") definition (some e))
              (
                record r {
                  db = record r.db { schema = if all_the_same then left else r.db.schema };
                },
                err (at (file m.deploy.relative_path) (new deploy_outcome_unknown)),
              )
      ]

  -- `Runner::deploy_nontransactional`.
  unfoldable pub deploy_nontransactional : Migration → Runner S → Runner S × Result (Unit {0})
  deploy_nontransactional m r =
      elim (structural_definition lib m
        >>= (λ definition. guard w.timeouts registry_failed >> ok definition)) [
          | err e ↦ (r, err e)
          | ok definition ↦
              let (noted, outcome) = begin_attempt m definition r in
              elim outcome [ err e ↦ (noted, err e) | ok done ↦ run_statement m definition noted ]
        ]

  -- `Runner::resolve`.
  unfoldable pub resolve : UnresolvedAttempt → Bool → Runner S → Runner S × Result (Unit {0})
  resolve attempt applied r =
      close w.event w.commit
        (record {
          run_id = 0;
          sequence = 0;
          migration_id = some attempt.id;
          action = codes "resolve";
          outcome = if applied then codes "asserted_applied" else codes "asserted_not_applied";
          transaction_mode = some (codes "forbidden");
          definition_sha256 = some attempt.definition_sha256;
          definition_algorithm = some attempt.definition_algorithm;
          script_role = some deploy;
          script_sha256 = some attempt.deploy_sha256;
          error = none;
        })
        ok
        (guard w.begin registry_failed
          >> with_state r.db (
              (if applied
                then record_applied_from_attempt w.row attempt r.db.state
                else ok r.db.state)
              >>= clear_attempt w.cleared attempt.id))
        r

  -- `recorded_identity`: the row's definition, or that of the migration when there is no row.
  unfoldable pub recorded_identity : Migration → Runner S → Result (Text × Text)
  recorded_identity m r = elim (get r.db.state.applied m.id) [
    | none ↦ structural_definition lib m >>= (λ definition. ok (definition, structural_v1))
    | some row ↦
        check_definition_algorithm row.definition_algorithm
        >> ok (row.definition_sha256, row.definition_algorithm)
  ]

  abbrev pub revert_event : Migration → Script → Text → Text × Text → Option Error → Event
  revert_event m script outcome identity e =
      event_of (codes "revert") outcome m (codes "required") identity (some revert)
        (some script.sha256) e

  -- `revert_inner`: the row leaves after the event.
  unfoldable pub revert_inner :
      Migration → Script → Text × Text → Runner S → Runner S × Result (Unit {0})
  revert_inner m script identity r =
      close w.event w.commit (revert_event m script (codes "succeeded") identity none)
        (λ staged. with_state staged (remove_applied w.row m.id staged.state))
        (ensure_runner_owns_transaction lib.parser script.sql script.relative_path
          >> guard w.begin registry_failed
          >> guard w.timeouts registry_failed
          >> execute server script.sql (script_failed revert script.relative_path) r.db)
        r

  -- `Runner::revert`.
  unfoldable pub revert_one : Migration → Runner S → Runner S × Result (Unit {0})
  revert_one m r = elim m.revert [
    | none ↦ (r, err (new migration_missing_script))
    | some script ↦ elim (guard w.attempt registry_failed >> recorded_identity m r) [
      | err e ↦ (r, err e)
      | ok identity ↦
          after_failure w.late_event (λ e. revert_event m script (codes "failed") identity (some e))
            (revert_inner m script identity r)
    ]
  ]

  -- The loop of `Runner::baseline`: each row with its event, in one transaction. The number of the
  -- last event is kept whatever becomes of the transaction.
  unfoldable pub baseline_rows :
      List (Migration × Text) → ℕ → Uuid → Database S → ℕ × Result (Database S)
  baseline_rows [] sequence run_id db = (sequence, ok db)
  baseline_rows ((m, definition) ∷ rest) sequence run_id db =
      elim (with_state db (record_applied (w.each_row sequence) m definition db.state)) [
        | err e ↦ (sequence, err e)
        | ok noted ↦
            elim (record_event (w.each_event sequence) run_id (next_sequence sequence)
              (event_of (codes "baseline") (codes "succeeded") m (as_str m.manifest.transaction)
                (definition, structural_v1) none none none)
              noted) [
                | err e ↦ (next_sequence sequence, err e)
                | ok done ↦ baseline_rows rest (next_sequence sequence) run_id done
              ]
      ]

  unfoldable pub definitions_of : List Migration → Result (List (Migration × Text))
  definitions_of [] = ok []
  definitions_of (m ∷ rest) = do
    definition ← structural_definition lib m
    more ← definitions_of rest
    ok ((m, definition) ∷ more)

  -- `Runner::baseline`.
  unfoldable pub baseline : List Migration → Runner S → Runner S × Result (Unit {0})
  baseline ms r = elim (definitions_of ms) [
    | err e ↦ (r, err e)
    | ok rows ↦
        let begun : Database S = r.db in
        if w.begin
        then (let (sequence, outcome) = baseline_rows rows r.sequence r.run_id begun in
            settle w.commit (record r { sequence = sequence }) outcome)
        else (r, err registry_failed)
  ]

  -- `verify_inner`: the transaction is read-only and is rolled back, so only its outcome is left.
  unfoldable pub verify_inner : Script → Database S → Result (Unit {0})
  verify_inner script db = do
    ensure_runner_owns_transaction lib.parser script.sql script.relative_path
    guard (not (runs_nothing lib.parser script.sql))
        (at (file script.relative_path) (new script_empty))
    guard w.begin registry_failed
    guard w.timeouts registry_failed
    let ran = execute server script.sql (script_failed verify script.relative_path) db
    guard w.finish registry_failed
    ran
    ok tt

  abbrev pub error_of : Result (Unit {0}) → Option Error
  error_of (ok done) = none
  error_of (err e) = some e

  abbrev pub outcome_of : Result (Unit {0}) → Text
  outcome_of (ok done) = codes "succeeded"
  outcome_of (err e) = codes "failed"

  -- The verification and its event, once the recorded identity is read.
  unfoldable pub verify_recorded :
      Migration → Script → Text × Text → Runner S → Runner S × Result Bool
  verify_recorded m script identity r =
      let result = verify_inner script r.db in
      let (after, recorded) =
        record_late w.late_event
          (event_of (codes "verify") (outcome_of result) m (codes "required") identity (some verify)
            (some script.sha256) (error_of result))
          r in
      (after, result >> recorded >> ok true)

  -- `Runner::verify`; `ok false` is a migration without a verification script.
  unfoldable pub verify_one : Migration → Runner S → Runner S × Result Bool
  verify_one m r = elim m.verify [
    | none ↦ (r, ok false)
    | some script ↦ elim (guard w.attempt registry_failed >> recorded_identity m r) [
      | err e ↦ (r, err e)
      | ok identity ↦ verify_recorded m script identity r
    ]
  ]
