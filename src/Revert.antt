-- ===== src/Revert.antt =====
-- crates/zapadka/src/commands/revert.rs: which migration may be reverted.
pub mod Leaves
mod Examples
use zapadka.Common.{
  Text, text_eq, starts_with, Bool, not, ◌&&◌, ◌||◌, List, [], ◌∷◌, contains_key, retain, is_empty,
  values,
}
use zapadka.Errors.{
  Result, ok, err, new, ◌>>=◌, ◌>>◌, selector_matched_nothing, migration_reversibility_invalid,
  migration_missing_script, script_empty,
}
use zapadka.Manifest.{Library, guard, is_reversible}
use zapadka.Migration.{Migration, require}
use zapadka.Graph.{Graph, dependents_of}
use zapadka.Registry.{RegistryState}
use zapadka.Lint.Scripts.{runs_nothing}

-- The `match` on the matches of a selector.
abbrev pub exactly_one : List Migration → Result Migration
exactly_one [] = err (new selector_matched_nothing)
exactly_one (m ∷ []) = ok m
exactly_one (m ∷ n ∷ ms) = err (new selector_matched_nothing)

-- `select`.
unfoldable pub select : Library → Graph → RegistryState → Text → Result Migration
select lib g state selector = exactly_one (
    retain (λ (m : Migration). starts_with (lib.to_string m.id) selector || text_eq m.slug selector)
      (retain (λ (m : Migration). contains_key state.applied m.id) (values g.migrations)))

-- `check_revertible`.
unfoldable pub check_revertible : Library → Graph → RegistryState → Migration → Result (Unit {0})
check_revertible lib g state m = do
  guard
      (is_empty
        (retain (λ (d : Migration). contains_key state.applied d.id) (dependents_of g m.id)))
      (new migration_reversibility_invalid)
  guard (is_reversible m.manifest.reversibility) (new migration_reversibility_invalid)
  script ← require m.revert (new migration_missing_script)
  guard (not (runs_nothing lib.parser script.sql)) (new script_empty)
