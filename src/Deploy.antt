-- ===== src/Deploy.antt =====
-- crates/zapadka/src/commands/deploy.rs: applying the pending migrations of a plan, and the report.
-- `wires` gives what the server answers to the deploy of each migration and to its verification.
-- Durations and server messages are left out of the report, as in the runner.
pub mod Steps
pub mod Runs
pub mod Accounts
pub mod Planned
mod Examples
use zapadka.Common.{Text, Bool, true, false, List, [], ◌∷◌, ◌++◌, Option, none, some, get}
use zapadka.Errors.{Error, Result, ok, err, ◌>>=◌}
use zapadka.Manifest.{Uuid, Library, Transaction, required, forbidden}
use zapadka.Migration.{Migration, Script, ScriptRole, deploy, verify, structural_definition}
use zapadka.Graph.{Graph}
use zapadka.Registry.{RegistryState, structural_v1}
use zapadka.Server.{Server, Wire, Runner}
use zapadka.Runner.{deploy_one, deploy_nontransactional, verify_one}

pub data Status : Type 0 where
  applied pending succeeded failed skipped blocked : Status

pub data Action : Type 0 where
  rehash plan deploying verifying reverting baselining resolving : Action

-- `report::Script`: a script that a run executed.
pub record ScriptReport : Type 0 where
  pub role : ScriptRole
  pub path : Text
  pub sha256 : Text
  pub status : Status
  pub error : Option Error

pub record MigrationResult : Type 0 where
  pub id : Uuid
  pub slug : Text
  pub action : Action
  pub status : Status
  pub transaction : Transaction
  pub definition_sha256 : Text
  pub definition_algorithm : Option Text
  pub scripts : List ScriptReport
  pub error : Option Error

-- `build_result`.
abbrev pub build_result : Migration → Action → Status → Text → Text → MigrationResult
build_result m action status definition algorithm = record {
  id = m.id;
  slug = m.slug;
  action = action;
  status = status;
  transaction = m.manifest.transaction;
  definition_sha256 = definition;
  definition_algorithm = some algorithm;
  scripts = [];
  error = none;
}

-- `failed_script`, and `script_of` for a script that succeeded.
abbrev pub failed_script : ScriptRole → Text → Text → Error → ScriptReport
failed_script role path sha256 e = record {
  role = role;
  path = path;
  sha256 = sha256;
  status = failed;
  error = some e;
}

abbrev pub script_of : ScriptRole → Text → Text → ScriptReport
script_of role path sha256 = record {
  role = role;
  path = path;
  sha256 = sha256;
  status = succeeded;
  error = none;
}

-- `if let Some(script) = &migration.verify { … }`.
abbrev pub verify_scripts : Migration → (Script → ScriptReport) → List ScriptReport
verify_scripts m report = elim m.verify [ none ↦ [] | some script ↦ report script ∷ [] ]

abbrev pub with_script : MigrationResult → ScriptReport → MigrationResult
with_script result entry = record result { scripts = result.scripts ++ entry ∷ [] }

-- The `match` on the outcome of the verification.
unfoldable pub verification_entry :
    Migration → MigrationResult → Result Bool → MigrationResult × Option Error
verification_entry m result (ok true) = (
  record result {
    scripts =
        result.scripts
        ++ verify_scripts m (λ (s : Script). script_of verify s.relative_path s.sha256);
  },
  none,
)
verification_entry m result (ok false) = (result, none)
verification_entry m result (err e) = (
  record result {
    scripts =
        result.scripts
        ++ verify_scripts m (λ (s : Script). failed_script verify s.relative_path s.sha256 e);
    error = some e;
  },
  some e,
)

module _ (lib : Library) where
  -- `result_of`.
  unfoldable pub result_of : Migration → Action → Status → Result MigrationResult
  result_of m action status =
      structural_definition lib m
      >>= (λ definition. ok (build_result m action status definition structural_v1))

  module _ {ℓ} {S : Type ℓ} (server : Server S) (wires : Uuid → Wire × Wire)
      (should_verify : Bool) where
    -- The path that the manifest chooses.
    unfoldable pub run_deploy : Migration → Runner S → Runner S × Result (Unit {0})
    run_deploy m r = elim m.manifest.transaction [
      | forbidden ↦ deploy_nontransactional lib server (wires m.id).0 m r
      | required ↦ deploy_one lib server (wires m.id).0 m r
    ]

    -- What is left of `apply_one` once the migration is deployed: its verification.
    unfoldable pub verified_result :
        Migration → MigrationResult → Runner S → Runner S × (MigrationResult × Option Error)
    verified_result m result r = elim should_verify [
      | false ↦ (r, (result, none))
      | true ↦
          let (after, outcome) = verify_one lib server (wires m.id).1 m r in
          (after, verification_entry m result outcome)
    ]

    -- `apply_one`.
    unfoldable pub apply_deployed :
        Migration
        → MigrationResult
        → Runner S × Result (Unit {0})
        → Runner S × (MigrationResult × Option Error)
    apply_deployed m result (r, err e) = (
      r,
      (
        record (with_script result
            (failed_script deploy m.deploy.relative_path m.deploy.sha256 e)) {
              status = failed;
              error = some e;
            },
        some e,
      ),
    )
    apply_deployed m result (r, ok done) =
        verified_result m
          (with_script result (script_of deploy m.deploy.relative_path m.deploy.sha256)) r

    unfoldable pub apply_one :
        Migration → Runner S → Runner S × Result (MigrationResult × Option Error)
    apply_one m r = elim (result_of m deploying succeeded) [
      | err e ↦ (r, err e)
      | ok result ↦
          let (after, outcome) = apply_deployed m result (run_deploy m r) in (after, ok outcome)
    ]

    -- How a run ends: the runner, the report, and the first failure.
    pub record Run : Type ℓ where
      pub runner : Runner S
      pub migrations : List MigrationResult
      pub outcome : Result (Unit {0})

    abbrev pub ended : Option Error → Result (Unit {0})
    ended none = ok tt
    ended (some e) = err e

    -- `apply_all`, over the pending identities, with the report so far and the first failure.
    unfoldable pub apply_all :
        Graph → List Uuid → Runner S → List MigrationResult → Option Error → Run
    apply_all g [] r report failure = record {
      runner = r;
      migrations = report;
      outcome = ended failure;
    }
    apply_all g (id ∷ rest) r report failure = elim (get g.migrations id) [
      | none ↦ apply_all g rest r report failure
      | some m ↦ elim failure [
        | some e ↦ elim (result_of m plan skipped) [
          | err x ↦ record { runner = r; migrations = report; outcome = err x }
          | ok result ↦ apply_all g rest r (report ++ result ∷ []) (some e)
        ]
        | none ↦
            (let (after, applied_one) = apply_one m r in
              elim applied_one [
                | err x ↦ record { runner = after; migrations = report; outcome = err x }
                | ok (result, error) ↦ apply_all g rest after (report ++ result ∷ []) error
              ])
      ]
    ]
