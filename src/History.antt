-- ===== src/History.antt =====
-- crates/zapadka-pg/src/history.rs: comparing deployed history with the checked-out project.
pub mod Plans
mod Examples
use zapadka.Common.{
  Text, codes, text_eq, is_empty, Bool, true, false, not, ◌&&◌, List, [], ◌∷◌, ◌++◌, Option, none,
  some, ◌==◌, if◌then◌else◌, contains_key, retain, leb, get,
}
use zapadka.Common.Sort.{sort}
use zapadka.Errors.{
  Error, Result, ok, err, new, at, file, ◌>>=◌, ◌>>◌, history_migration_missing,
  history_definition_changed, history_dependencies_changed,
}
use zapadka.Manifest.{Uuid, Library, as_str, guard, definition_sha256}
use zapadka.Migration.{Migration, depends, manifest_path, structural_definition}
use zapadka.Graph.{Graph, deployment_order}
use zapadka.Registry.{AppliedMigration, check_definition_algorithm, structural_v1}

pub record Plan : Type 0 where
  pub pending : List Uuid
  pub applied : List Uuid

-- Equality of two lists of identities.
abbrev pub ids_eq : List Uuid → List Uuid → Bool
ids_eq [] [] = true
ids_eq [] (y ∷ ys) = false
ids_eq (x ∷ xs) [] = false
ids_eq (x ∷ xs) (y ∷ ys) = x == y && ids_eq xs ys

-- `check_dependencies_applied`.
unfoldable pub check_dependencies_applied :
    Migration → List (Uuid × AppliedMigration) → Result (Unit {0})
check_dependencies_applied m applied =
    guard (is_empty (retain (λ d. not (contains_key applied d)) (depends m)))
      (new history_migration_missing)

module _ (lib : Library) where
  -- The definition under the algorithm that the row records.
  abbrev pub definition_of : Migration → AppliedMigration → Result Text
  definition_of m row =
      if text_eq row.definition_algorithm structural_v1
      then structural_definition lib m
      else ok (definition_sha256 lib m.manifest m.deploy.sql)

  -- Why a definition changed: its edges, its mode, its script or the rest of its manifest.
  unfoldable pub changed : Migration → AppliedMigration → Error
  changed m row =
      if not (ids_eq (sort leb (depends m)) (sort leb row.depends))
      then at (file (manifest_path m)) (new history_dependencies_changed)
      else if not (text_eq (as_str m.manifest.transaction) row.transaction_mode)
      then at (file (manifest_path m)) (new history_definition_changed)
      else if not (text_eq m.deploy.sha256 row.deploy_sha256)
      then at (file m.deploy.relative_path) (new history_definition_changed)
      else at (file (manifest_path m)) (new history_definition_changed)

  -- `check_unchanged`.
  unfoldable pub check_unchanged : Migration → AppliedMigration → Result (Unit {0})
  check_unchanged m row = do
    check_definition_algorithm row.definition_algorithm
    definition ← definition_of m row
    guard (text_eq definition row.definition_sha256) (changed m row)

  -- One round of the loop over the applied rows.
  unfoldable pub check_row :
      Graph → List (Uuid × AppliedMigration) → Uuid → AppliedMigration → Result (Unit {0})
  check_row g applied id row = elim (get g.migrations id) [
    | none ↦ err (new history_migration_missing)
    | some m ↦ check_unchanged m row >> check_dependencies_applied m applied
  ]

  unfoldable pub check_rows :
      Graph → List (Uuid × AppliedMigration) → List (Uuid × AppliedMigration) → Result (Unit {0})
  check_rows g applied [] = ok tt
  check_rows g applied ((id, row) ∷ rows) = check_row g applied id row >> check_rows g applied rows

  -- `filter(…).map(|migration| migration.id)`.
  unfoldable pub ids_where : (Uuid → Bool) → List Migration → List Uuid
  ids_where p [] = []
  ids_where p (m ∷ ms) = let rest = ids_where p ms in if p m.id then m.id ∷ rest else rest

  -- `plan`.
  unfoldable pub plan : Graph → List (Uuid × AppliedMigration) → Result Plan
  plan g applied =
      check_rows g applied applied
      >> ok (record {
        pending = ids_where (λ id. not (contains_key applied id)) (deployment_order g);
        applied = ids_where (contains_key applied) (deployment_order g);
      })
