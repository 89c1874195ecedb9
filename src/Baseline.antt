-- ===== src/Baseline.antt =====
-- crates/zapadka/src/commands/baseline.rs: recording a closure as applied without running its SQL.
-- The validation before the lock is `Lint.Command.validate`; the report is left out, but not the
-- definitions that it computes.
pub mod Rows
pub mod Adopted
mod Examples
use zapadka.Common.{
  Text, not, ◌||◌, List, is_empty, retain, contains_key, starts_with, text_eq, values,
  if◌then◌else◌,
}
use zapadka.Errors.{Result, ok, err, ◌>>=◌, ◌>>◌}
use zapadka.Manifest.{Uuid, Library}
use zapadka.Migration.{Migration}
use zapadka.Graph.{Graph, closure_of}
use zapadka.Registry.{RegistryState}
use zapadka.History.{plan}
use zapadka.Server.{Server, Wire, Runner}
use zapadka.Runner.{baseline, definitions_of}
use zapadka.Revert.{exactly_one}
use zapadka.Target.{Access, refresh_state, require_not_blocked, claim_and_upgrade}

-- `resolve`: the one migration that `--to` names.
unfoldable pub resolve_selector : Library → Graph → Text → Result Migration
resolve_selector lib g selector = exactly_one (
    retain (λ (m : Migration). starts_with (lib.to_string m.id) selector || text_eq m.slug selector)
      (values g.migrations))

abbrev pub when_claimed {ℓ} :
    {S : Type ℓ}
    → (Runner S → Runner S × Result (Unit {0}))
    → Runner S × Result (Unit {0})
    → Runner S × Result (Unit {0})
when_claimed go_on (r, err e) = (r, err e)
when_claimed go_on (r, ok claimed) = go_on r

module _ {ℓ} {S : Type ℓ} (lib : Library) (server : Server S) (w : Wire) where
  -- What is checked and selected once the database is claimed, from the state that was read.
  unfoldable pub pending_of : Graph → Uuid → RegistryState → Result (List Migration)
  pending_of g target state = do
    plan lib g state.applied
    closure ← closure_of g target
    ok (retain (λ (m : Migration). not (contains_key state.applied m.id)) closure)

  -- The end of `baseline_under_lock`, on the migrations that are not applied.
  unfoldable pub record_pending : List Migration → Runner S → Runner S × Result (Unit {0})
  record_pending pending r =
      if is_empty pending then (r, ok tt) else elim (definitions_of lib server w pending) [
        | err e ↦ (r, err e)
        | ok reports ↦ baseline lib server w pending r
      ]

  abbrev pub with_pending : Result (List Migration) → Runner S → Runner S × Result (Unit {0})
  with_pending (err e) r = (r, err e)
  with_pending (ok pending) r = record_pending pending r

  -- `baseline_under_lock`.
  unfoldable pub baseline_under_lock :
      Access → Graph → Uuid → Runner S → Runner S × Result (Unit {0})
  baseline_under_lock access g target r =
      elim (refresh_state access r.db.state >>= λ state. require_not_blocked state >> ok state) [
        | err e ↦ (r, err e)
        | ok state ↦
            when_claimed (with_pending (pending_of g target state)) (claim_and_upgrade access r)
      ]
