-- ===== src/Registry.antt =====
-- crates/zapadka-pg/src/registry.rs: what a database records about its own migration history.
-- The tables are association lists by identity, since `migration_id` is their primary key: an
-- INSERT of a key that is present fails, and a DELETE of one that is absent does nothing. Columns
-- that only say when, by whom and with which versions a row was written are left out.
pub mod Upgrading
use zapadka.Common.{
  ℕ, Text, codes, text_eq, Bool, not, ◌||◌, List, [], ◌∷◌, ◌++◌, Option, none, some, ◌==◌,
  if◌then◌else◌, ltb, insert, contains_key, remove, is_some, leb,
}
use zapadka.Common.Sort.{sort}
use zapadka.Errors.{
  Error, Result, ok, err, new, ◌>>◌, registry_format_too_new, registry_project_mismatch,
  registry_upgrade_failed,
}
use zapadka.Manifest.{Uuid, Transaction, required, forbidden, as_str, guard}
use zapadka.Migration.{Migration, depends}

abbrev pub raw_v1 : Text
raw_v1 = codes "raw-v1"

abbrev pub structural_v1 : Text
structural_v1 = codes "structural-v1"

abbrev pub registry_format_version : ℕ
registry_format_version = 3

-- `check_definition_algorithm`.
unfoldable pub check_definition_algorithm : Text → Result (Unit {0})
check_definition_algorithm algorithm =
    guard (text_eq algorithm raw_v1 || text_eq algorithm structural_v1)
      (new registry_format_too_new)

pub record AppliedMigration : Type 0 where
  pub definition_algorithm : Text
  pub id : Uuid
  pub slug : Text
  pub definition_sha256 : Text
  pub deploy_sha256 : Text
  pub depends : List Uuid
  pub transaction_mode : Text

pub record UnresolvedAttempt : Type 0 where
  pub definition_algorithm : Text
  pub id : Uuid
  pub slug : Text
  pub definition_sha256 : Text
  pub deploy_sha256 : Text
  pub depends : List Uuid

pub record RegistryState : Type 0 where
  pub format_version : Option ℕ
  pub project_id : Option Uuid
  pub applied : List (Uuid × AppliedMigration)
  pub unresolved : List (Uuid × UnresolvedAttempt)

-- `RegistryState::is_initialized`.
abbrev pub is_initialized : RegistryState → Bool
is_initialized state = is_some state.format_version

-- `registry_failed`: the error for a statement of the registry that the server refused.
abbrev pub registry_failed : Error
registry_failed = new registry_upgrade_failed

-- `check_project`.
unfoldable pub check_project : RegistryState → Uuid → Result (Unit {0})
check_project state project_id = elim state.project_id [
  | none ↦ ok tt
  | some existing ↦ guard (existing == project_id) (new registry_project_mismatch)
]

-- `upgrade_in_transaction`, where `answered` says whether the server accepted every statement: the
-- meta row is created for a new registry, and its version is set for an older one.
unfoldable pub upgrade_in_transaction : Bool → Uuid → RegistryState → Result RegistryState
upgrade_in_transaction answered project_id state =
    let current : ℕ = elim state.format_version [ none ↦ 0 | some v ↦ v ] in
    check_project state project_id
    >> (if ltb registry_format_version current
        then err (new registry_format_too_new)
        else if current == registry_format_version
        then ok state
        else if answered
        then ok (record state {
          format_version = some registry_format_version;
          project_id = if current == 0 then some project_id else state.project_id;
        })
        else err registry_failed)

-- `record_applied`: an INSERT into `applied_migrations`.
abbrev pub applied_row : Migration → Text → AppliedMigration
applied_row m definition = record {
  definition_algorithm = structural_v1;
  id = m.id;
  slug = m.slug;
  definition_sha256 = definition;
  deploy_sha256 = m.deploy.sha256;
  depends = sort leb (depends m);
  transaction_mode = as_str m.manifest.transaction;
}

abbrev insert_applied : Bool → AppliedMigration → RegistryState → Result RegistryState
insert_applied answered row state =
    guard answered registry_failed
    >> guard (not (contains_key state.applied row.id)) registry_failed
    >> ok (record state { applied = insert row.id row state.applied })

unfoldable pub record_applied : Bool → Migration → Text → RegistryState → Result RegistryState
record_applied answered m definition state =
    insert_applied answered (applied_row m definition) state

-- `record_applied_from_attempt`: the same, from what the attempt recorded.
abbrev pub attempt_row : UnresolvedAttempt → AppliedMigration
attempt_row a = record {
  definition_algorithm = a.definition_algorithm;
  id = a.id;
  slug = a.slug;
  definition_sha256 = a.definition_sha256;
  deploy_sha256 = a.deploy_sha256;
  depends = sort leb a.depends;
  transaction_mode = codes "forbidden";
}

unfoldable pub record_applied_from_attempt :
    Bool → UnresolvedAttempt → RegistryState → Result RegistryState
record_applied_from_attempt answered a state = insert_applied answered (attempt_row a) state

-- `remove_applied`: a DELETE.
unfoldable pub remove_applied : Bool → Uuid → RegistryState → Result RegistryState
remove_applied answered id state =
    guard answered registry_failed >> ok (record state { applied = remove id state.applied })

-- `record_attempt` and `clear_attempt`: an INSERT and a DELETE in `nontransactional_attempts`.
abbrev pub attempt_of : Migration → Text → UnresolvedAttempt
attempt_of m definition = record {
  definition_algorithm = structural_v1;
  id = m.id;
  slug = m.slug;
  definition_sha256 = definition;
  deploy_sha256 = m.deploy.sha256;
  depends = sort leb (depends m);
}

unfoldable pub record_attempt : Bool → Migration → Text → RegistryState → Result RegistryState
record_attempt answered m definition state =
    guard answered registry_failed
    >> guard (not (contains_key state.unresolved m.id)) registry_failed
    >> ok (record state { unresolved = insert m.id (attempt_of m definition) state.unresolved })

unfoldable pub clear_attempt : Bool → Uuid → RegistryState → Result RegistryState
clear_attempt answered id state =
    guard answered registry_failed >> ok (record state { unresolved = remove id state.unresolved })

-- `quote_identifier`.
abbrev double_quotes : Text → Text
double_quotes [] = []
double_quotes (c ∷ s) = if c == b'"' then b'"' ∷ b'"' ∷ double_quotes s else c ∷ double_quotes s

unfoldable pub quote_identifier : Text → Text
quote_identifier name = b'"' ∷ (double_quotes name ++ b'"' ∷ [])

-- `parse_transaction_mode`.
unfoldable pub parse_transaction_mode : Text → Transaction
parse_transaction_mode text = if text_eq text (codes "forbidden") then forbidden else required
