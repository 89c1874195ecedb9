-- ===== src/Rehash.antt =====
-- crates/zapadka-pg/src/rehash.rs and `Runner::rehash` of execute.rs: taking the definitions that a
-- registry compares by over to the structural algorithm.
-- What identifies the operator, the session and the versions in an audit row is left out, and the
-- wording of its provenance is the entry's disposition. `Grants` says which statements of the
-- transaction the server accepts, and `ending` how its commit ends.
pub mod Entries
pub mod Conversion
pub mod Checked
pub mod Atomic
mod Examples
use zapadka.Common.{
  ℕ, Text, codes, text_eq, is_empty, Bool, true, false, not, ◌&&◌, ◌||◌, List, [], ◌∷◌, ◌++◌, map,
  Option, none, some, ◌==◌, if◌then◌else◌, any, get, insert, values, trim, is_some,
}
use zapadka.Common.Sort.{sort}
use zapadka.Common.{leb}
use zapadka.Errors.{
  Error, Result, ok, err, new, ◌>>=◌, ◌>>◌, history_migration_missing, history_definition_changed,
  history_dependencies_changed, registry_not_initialized, registry_blocked,
}
use zapadka.Manifest.{Uuid, Library, Transaction, as_str, guard, definition_sha256}
use zapadka.Migration.{Migration, depends, require, structural_definition}
use zapadka.Graph.{Graph}
use zapadka.Registry.{
  AppliedMigration, RegistryState, check_definition_algorithm, structural_v1,
  parse_transaction_mode, is_initialized, registry_failed, upgrade_in_transaction,
}
use zapadka.Server.{Commit, committed, refused, lost}
use zapadka.History.{check_dependencies_applied, check_unchanged, ids_eq}
use zapadka.Lint.{Policy, Capabilities, Findings, check_migration}
use zapadka.Lint.Command.{first_error}

pub data Disposition : Type 0 where
  verified accepted already_current source_mismatch blocked : Disposition

pub record RehashEntry : Type 0 where
  pub id : Uuid
  pub slug : Text
  pub transaction : Transaction
  pub disposition : Disposition
  pub old_definition_sha256 : Text
  pub old_definition_algorithm : Text
  pub new_definition_sha256 : Option Text
  pub original_deploy_sha256 : Text
  pub current_deploy_sha256 : Option Text
  pub failure : Option Error

-- `matches!(disposition, Verified | Accepted)`.
abbrev pub converts : Disposition → Bool
converts verified = true
converts accepted = true
converts already_current = false
converts source_mismatch = false
converts blocked = false

-- `RehashPlan::validate` and `RehashPlan::is_empty`.
unfoldable pub check_entries : List RehashEntry → Result (Unit {0})
check_entries [] = ok tt
check_entries (e ∷ es) = elim e.failure [ some failure ↦ err failure | none ↦ check_entries es ]

abbrev pub is_settled : List RehashEntry → Bool
is_settled es = not (any (λ (e : RehashEntry). converts e.disposition) es)

-- `check_execution_metadata`.
unfoldable pub check_execution_metadata : Migration → AppliedMigration → Result (Unit {0})
check_execution_metadata m row =
    guard (ids_eq (sort leb (depends m)) (sort leb row.depends)) (new history_dependencies_changed)
    >> guard (text_eq (as_str m.manifest.transaction) row.transaction_mode)
        (new history_definition_changed)

module _ (lib : Library) where
  -- `check_deploy_source`: the checks of lint on the deploy script alone.
  unfoldable pub check_deploy_source : Migration → Result (Unit {0})
  check_deploy_source m =
      let findings : Findings =
        check_migration lib.parser (record { deny = [] })
          (record m { revert = none; verify = none }) (record { can_run_nontransactional = true })
          (record { errors = []; diagnostics = [] }) in
      first_error findings.errors

  -- What `classify` checks before it reads the source.
  unfoldable pub check_source : Graph → RegistryState → AppliedMigration → Result Migration
  check_source g state row = do
    check_definition_algorithm row.definition_algorithm
    m ← require (get g.migrations row.id) (new history_migration_missing)
    check_dependencies_applied m state.applied
    check_execution_metadata m row
    check_deploy_source m
    ok m

  -- The disposition that `classify` comes to.
  unfoldable pub dispose :
      Migration → AppliedMigration → Bool → RehashEntry → RehashEntry × Result (Unit {0})
  dispose m row accept_current entry =
      if text_eq row.definition_algorithm structural_v1
      then (elim (check_unchanged lib m row) [
        | err e ↦ (entry, err e)
        | ok unchanged ↦ (record entry { disposition = already_current }, ok tt)
      ])
      else if text_eq (definition_sha256 lib m.manifest m.deploy.sql) row.definition_sha256
      then (record entry { disposition = verified }, ok tt)
      else if accept_current
      then (record entry { disposition = accepted }, ok tt)
      else (record entry { disposition = source_mismatch }, err (new history_definition_changed))

  -- `classify`.
  unfoldable pub classify_row :
      Graph
      → RegistryState
      → AppliedMigration
      → Bool
      → RehashEntry
      → RehashEntry × Result (Unit {0})
  classify_row g state row accept_current entry = elim (check_source g state row) [
    | err e ↦ (entry, err e)
    | ok m ↦ elim (structural_definition lib m) [
      | err e ↦ (record entry { current_deploy_sha256 = some m.deploy.sha256 }, err e)
      | ok definition ↦ dispose m row accept_current (record entry {
        current_deploy_sha256 = some m.deploy.sha256;
        new_definition_sha256 = some definition;
      })
    ]
  ]

  abbrev pub noted : RehashEntry × Result (Unit {0}) → RehashEntry
  noted (entry, ok done) = entry
  noted (entry, err e) = record entry { failure = some e }

  -- The closure of `plan` over the applied rows.
  unfoldable pub entry_of : Graph → RegistryState → Bool → AppliedMigration → RehashEntry
  entry_of g state accept_current row = noted (
      classify_row g state row accept_current (record {
        id = row.id;
        slug = row.slug;
        transaction = parse_transaction_mode row.transaction_mode;
        disposition = blocked;
        old_definition_sha256 = row.definition_sha256;
        old_definition_algorithm = row.definition_algorithm;
        new_definition_sha256 = none;
        original_deploy_sha256 = row.deploy_sha256;
        current_deploy_sha256 = none;
        failure = none;
      }))

  -- `plan`.
  unfoldable pub plan_rehash : Graph → RegistryState → Bool → Result (List RehashEntry)
  plan_rehash g state accept_current = do
    guard (is_initialized state) (new registry_not_initialized)
    guard (is_empty state.unresolved) (new registry_blocked)
    ok (map (entry_of g state accept_current) (values state.applied))

-- A row of `rehash_events`.
pub record Audit : Type 0 where
  pub migration_id : Uuid
  pub old_algorithm : Text
  pub old_definition_sha256 : Text
  pub new_definition_sha256 : Text
  pub original_deploy_sha256 : Text
  pub current_deploy_sha256 : Option Text
  pub disposition : Disposition
  pub reason : Option Text

-- The tables that a conversion writes.
pub record Ledger : Type 0 where
  pub state : RegistryState
  pub audits : List Audit

-- The UPDATE of one row, which counts the rows that still have the old identity. The column takes
-- no null.
unfoldable pub update_identity : RehashEntry → Text → RegistryState → Result RegistryState
update_identity e definition state = elim (get state.applied e.id) [
  | none ↦ err (new history_definition_changed)
  | some row ↦
      guard
        (text_eq row.definition_sha256 e.old_definition_sha256
          && text_eq row.definition_algorithm e.old_definition_algorithm)
        (new history_definition_changed)
      >> ok (record state {
        applied =
            insert e.id
              (record row { definition_sha256 = definition; definition_algorithm = structural_v1 })
              state.applied;
      })
]

abbrev pub reason_of : Disposition → Option Text → Option Text
reason_of accepted reason = reason
reason_of verified reason = none
reason_of already_current reason = none
reason_of source_mismatch reason = none
reason_of blocked reason = none

-- What the server grants of the transaction: its begin, the statements of the upgrade, and the UPDATE
-- and the audit row of each migration.
pub record Grants : Type 0 where
  pub begin : Bool
  pub upgrade : Bool
  pub update : Uuid → Bool
  pub audit : Uuid → Bool

-- `apply_entry`.
unfoldable pub apply_entry : Grants → Option Text → RehashEntry → Ledger → Result Ledger
apply_entry granted reason e l = do
  guard (granted.update e.id) registry_failed
  definition ← require e.new_definition_sha256 registry_failed
  state ← update_identity e definition l.state
  guard (granted.audit e.id) registry_failed
  ok (record {
    state = state;
    audits =
        l.audits
        ++ record {
          migration_id = e.id;
          old_algorithm = e.old_definition_algorithm;
          old_definition_sha256 = e.old_definition_sha256;
          new_definition_sha256 = definition;
          original_deploy_sha256 = e.original_deploy_sha256;
          current_deploy_sha256 = e.current_deploy_sha256;
          disposition = e.disposition;
          reason = reason_of e.disposition reason;
        }
          ∷ [];
  })

-- `apply`.
unfoldable pub apply_entries : Grants → Option Text → List RehashEntry → Ledger → Result Ledger
apply_entries granted reason [] l = ok l
apply_entries granted reason (e ∷ es) l =
    (if converts e.disposition then apply_entry granted reason e l else ok l)
    >>= apply_entries granted reason es

abbrev pub states_reason : Option Text → Bool
states_reason none = false
states_reason (some reason) = not (is_empty (trim reason))

-- The transaction of `Runner::rehash`.
unfoldable pub convert : Grants → Option Text → Uuid → List RehashEntry → Ledger → Result Ledger
convert granted reason project_id es l = do
  guard granted.begin registry_failed
  state ← upgrade_in_transaction granted.upgrade project_id l.state
  apply_entries granted reason es (record l { state = state })

-- How the commit ends. A lost connection tells nothing, and the commit may have been done.
unfoldable pub end_commit :
    Commit → Ledger → Ledger → List RehashEntry → Ledger × Result (List RehashEntry)
end_commit committed before after entries = (after, ok entries)
end_commit refused before after entries = (before, err registry_failed)
end_commit (lost kept) before after entries = (if kept then after else before, err registry_failed)

-- `Runner::rehash`, on the freshly read state of the tables. A transaction that fails leaves them
-- as they are.
unfoldable pub rehash :
    Library
    → Graph
    → Grants
    → Commit
    → Bool
    → Option Text
    → Ledger
    → Ledger × Result (List RehashEntry)
rehash lib g granted ending accept_current reason l =
    elim (guard (not accept_current || states_reason reason) (new history_definition_changed)
      >> plan_rehash lib g l.state accept_current
      >>= λ entries. check_entries entries >> ok entries) [
        | err e ↦ (l, err e)
        | ok entries ↦
            if is_settled entries
            then (l, ok entries)
            else (elim (require l.state.project_id (new registry_not_initialized) >>= λ project_id.
                convert granted reason project_id entries l) [
                  | err e ↦ (l, err e)
                  | ok after ↦ end_commit ending l after entries
                ])
      ]
