-- ===== src/Target/Claims.antt =====
-- Claiming a database changes neither the schema nor the rows of what is applied.
use zapadka.Common.{◌≡◌, refl, inl, inr, true, false, Bool-cases, ◌==◌}
use zapadka.Errors.{Result-cases}
use zapadka.Registry.{RegistryState, upgrade_in_transaction, registry_format_version}
use zapadka.Registry.Upgrading.{upgrade_in_transaction-applied}
use zapadka.Server.{Runner, Commit, committed, refused, lost, commit}
use zapadka.Target.{Access, current_version, upgrade, upgrade_owned, claim_and_upgrade}

module _ {ℓ} {S : Type ℓ} where
  pub record IsUntouched (r after : Runner S) : Type ℓ where
    pub schema : after.db.schema ≡ r.db.schema
    pub applied : after.db.state.applied ≡ r.db.state.applied

  pub IsUntouched-refl : (r : Runner S) → IsUntouched r r
  IsUntouched-refl r = record { schema = refl; applied = refl }

module _ {ℓ} {S : Type ℓ} (access : Access) where
  commit-IsUntouched :
      (ending : Commit) (r : Runner S) (state : RegistryState)
      → state.applied ≡ r.db.state.applied
      → IsUntouched r (commit ending (record r.db { state = state }) r).0
  unfolding commit
  commit-IsUntouched committed r state h = record { schema = refl; applied = h }
  commit-IsUntouched refused r state h = IsUntouched-refl r
  commit-IsUntouched (lost true) r state h = record { schema = refl; applied = h }
  commit-IsUntouched (lost false) r state h = IsUntouched-refl r

  upgrade-IsUntouched : (r : Runner S) → IsUntouched r (upgrade access r).0
  unfolding upgrade
  upgrade-IsUntouched r =
      elim (Bool-cases (current_version r.db.state == registry_format_version)) [
        | inl current ↦ rw (current, upgrade) (IsUntouched-refl r)
        | inr older ↦
            elim (Result-cases
              (upgrade_in_transaction access.answered access.project_id r.db.state)) [
                | inl (x, failed) ↦ rw (older, failed, upgrade) (IsUntouched-refl r)
                | inr (state, went) ↦
                    rw (older, went, upgrade)
                      (commit-IsUntouched access.upgrade_commit r state (
                        upgrade_in_transaction-applied access.answered access.project_id r.db.state
                          state went))
              ]
      ]

  upgrade_owned-IsUntouched : (r : Runner S) → IsUntouched r (upgrade_owned access r).0
  unfolding upgrade_owned
  upgrade_owned-IsUntouched r = elim (Result-cases access.still_owned) [
    | inl (x, other) ↦ rw (other, upgrade_owned) (IsUntouched-refl r)
    | inr (_, owned) ↦ rw (owned, upgrade_owned) (upgrade-IsUntouched r)
  ]

  pub claim_and_upgrade-IsUntouched : (r : Runner S) → IsUntouched r (claim_and_upgrade access r).0
  unfolding claim_and_upgrade
  claim_and_upgrade-IsUntouched r = elim (Result-cases access.locked) [
    | inl (x, failed) ↦ rw (failed, claim_and_upgrade) (IsUntouched-refl r)
    | inr (_, held) ↦ rw (held, claim_and_upgrade) (upgrade_owned-IsUntouched r)
  ]
