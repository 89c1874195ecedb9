-- ===== src/Target.antt =====
-- crates/zapadka/src/commands/target.rs: what a command that changes a target checks once it holds
-- the deployment lock. The connection, the locks and the queries are parameters, the answers of
-- `Access`; a command that cannot take the deployment lock does not get here.
pub mod Claims
use zapadka.Common.{ℕ, ◌==◌, Text, Bool, List, is_empty, Option, none, some}
use zapadka.Errors.{
  Error, Result, ok, err, new, ◌>>◌, registry_not_initialized, registry_blocked, target_unknown,
}
use zapadka.Common.{[], ◌∷◌, contains_key, is_some, any, text_eq, codes, true, false, if◌then◌else◌}
use zapadka.Manifest.{Uuid, guard}
use zapadka.Registry.{
  RegistryState, check_project, upgrade_in_transaction, is_initialized, registry_format_version,
}
use zapadka.Server.{Commit, Runner, Database, commit}

pub record Access : Type 0 where
  pub project_id : Uuid
  -- `registry::read` fails, or reads the tables.
  pub read : Result (Unit {0})
  -- `registry::check_database_ownership`, when the state is read and when the database is claimed.
  pub owned : Result (Unit {0})
  pub still_owned : Result (Unit {0})
  -- The lock on ownership, and its release.
  pub locked : Result (Unit {0})
  pub released : Result (Unit {0})
  -- Whether the server accepts the statements of the upgrade, and how its commit ends.
  pub answered : Bool
  pub upgrade_commit : Commit

-- `refresh_state`.
unfoldable pub refresh_state : Access → RegistryState → Result RegistryState
refresh_state access tables =
    access.read >> check_project tables access.project_id >> access.owned >> ok tables

-- `require_initialized` and `require_not_blocked`.
unfoldable pub require_initialized : RegistryState → Result (Unit {0})
require_initialized state = guard (is_initialized state) (new registry_not_initialized)

unfoldable pub require_not_blocked : RegistryState → Result (Unit {0})
require_not_blocked state = guard (is_empty state.unresolved) (new registry_blocked)

-- `state.format_version.unwrap_or(0)`.
abbrev pub current_version : RegistryState → ℕ
current_version state = elim state.format_version [ none ↦ 0 | some version ↦ version ]

module _ {ℓ} {S : Type ℓ} where
  -- `registry::upgrade`: a registry of the current version needs no transaction.
  unfoldable pub upgrade : Access → Runner S → Runner S × Result (Unit {0})
  upgrade access r =
      if current_version r.db.state == registry_format_version
      then (r, check_project r.db.state access.project_id)
      else elim (upgrade_in_transaction access.answered access.project_id r.db.state) [
        | err e ↦ (r, err e)
        | ok state ↦ commit access.upgrade_commit (record r.db { state = state }) r
      ]

  -- The claim itself, with the lock on ownership held.
  unfoldable pub upgrade_owned : Access → Runner S → Runner S × Result (Unit {0})
  upgrade_owned access r = elim access.still_owned [
    | err e ↦ (r, err e)
    | ok owner ↦ upgrade access r
  ]

  -- `claim_and_upgrade`: the lock is released whatever the outcome.
  unfoldable pub claim_and_upgrade : Access → Runner S → Runner S × Result (Unit {0})
  claim_and_upgrade access r = elim access.locked [
    | err e ↦ (r, err e)
    | ok held ↦ let (after, outcome) = upgrade_owned access r in (after, outcome >> access.released)
  ]

-- `select`, over the names of the targets in the order of the map.
unfoldable pub select_target : List Text → Option Text → Bool → Result Text
select_target names (some name) uri =
    if any (text_eq name) names then ok name else err (new target_unknown)
select_target (only ∷ []) none uri = ok only
select_target [] none uri = if uri then ok (codes "uri") else err (new target_unknown)
select_target (first ∷ second ∷ rest) none uri = err (new target_unknown)
