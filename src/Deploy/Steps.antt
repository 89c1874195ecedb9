-- ===== src/Deploy/Steps.antt =====
-- What applying one migration does to the identities that the registry holds as applied.
use mathlib.Core.Path.{subst}
use zapadka.Common.{
  ◌≡◌, refl, sym, ap, ◌∙◌, Bool, ◌||◌, List, some, ◌==◌, arith, get, contains_key, get-insert,
  Bool-cases, Option-cases, inl, inr, ◌⊎◌, insert, Text,
}
use zapadka.Errors.{Error, Result, ok, err, Result-cases, ◌>>◌}
use zapadka.Manifest.{Uuid, Library, guard, Transaction, required, forbidden}
use zapadka.Migration.{Migration, Script}
use zapadka.Registry.{AppliedMigration, RegistryState, registry_failed}
use zapadka.Server.{Server, Wire, Runner}
use zapadka.Runner.{
  deploy_one, deploy_nontransactional, verify_one, verify_recorded, recorded_identity,
}
use zapadka.Runner.Transactions.{record_late-keeps}
use zapadka.Runner.Deploying.{deploy_one_atomic}
use zapadka.Runner.Nontransactional.{deploy_nontransactional_recorded}
use zapadka.Deploy.{MigrationResult, run_deploy, verified_result, apply_deployed}

-- The identities that the registry holds as applied.
abbrev pub applied_to {ℓ} : {S : Type ℓ} → Runner S → Uuid → Bool
applied_to r k = contains_key r.db.state.applied k

-- What a step does to the applied identities.
abbrev pub Same : (Uuid → Bool) → (Uuid → Bool) → Type 0
Same before after = (k : Uuid) → after k ≡ before k

abbrev pub Plus : Uuid → (Uuid → Bool) → (Uuid → Bool) → Type 0
Plus id before after = (k : Uuid) → after k ≡ (id == k || before k)

module _ {ℓ} {S : Type ℓ} (lib : Library) (server : Server S) (wires : Uuid → Wire × Wire)
    (should_verify : Bool) where
  insert-Plus :
      (id : Uuid) (row : AppliedMigration) (before after : List (Uuid × AppliedMigration))
      → after ≡ insert id row before
      → Plus id (contains_key before) (contains_key after)
  insert-Plus id row before after h k =
      let e = get-insert id row before k in
      let f = ap (λ (t : List (Uuid × AppliedMigration)). get t k) h in ground arith

  run_deploy-forbidden :
      (m : Migration) (r : Runner S)
      → m.manifest.transaction ≡ forbidden
      → run_deploy lib server wires should_verify m r
        ≡ deploy_nontransactional lib server (wires m.id).0 m r
  unfolding run_deploy
  run_deploy-forbidden m r h = ground arith

  run_deploy-required :
      (m : Migration) (r : Runner S)
      → m.manifest.transaction ≡ required
      → run_deploy lib server wires should_verify m r ≡ deploy_one lib server (wires m.id).0 m r
  unfolding run_deploy
  run_deploy-required m r h = ground arith

  -- A deploy fails and adds nothing, or it adds its migration.
  abbrev pub Adds : Migration → Runner S → Runner S × Result (Unit {0}) → Type 0
  Adds m r after =
      Same (applied_to r) (applied_to after.0) × ((e : Error) × (after.1 ≡ err e))
      ⊎ Plus m.id (applied_to r) (applied_to after.0)

  deploy_one-Adds :
      (w : Wire) (m : Migration) (r : Runner S) → Adds m r (deploy_one lib server w m r)
  deploy_one-Adds w m r = elim (deploy_one_atomic server lib w m r) [
    | inl undone ↦ inl (
      λ k. ap (λ (s : RegistryState). contains_key s.applied k) undone.state,
      (undone.error, undone.failed),
    )
    | inr (definition, _, deployed) ↦ inr (
        insert-Plus m.id _ r.db.state.applied _
          (ap (λ (s : RegistryState). s.applied) deployed.state))
  ]

  nontransactional-Adds :
      (w : Wire) (m : Migration) (r : Runner S)
      → Adds m r (deploy_nontransactional lib server w m r)
  nontransactional-Adds w m r = elim (deploy_nontransactional_recorded server lib w m r) [
    | inl undone ↦ inl (
      λ k. ap (λ (s : RegistryState). contains_key s.applied k) undone.state,
      (undone.error, undone.failed),
    )
    | inr (definition, _, inl waiting) ↦ inl (
      λ k. ap (λ (s : RegistryState). contains_key s.applied k) waiting.state,
      (waiting.error, waiting.failed),
    )
    | inr (definition, _, inr finished) ↦ inr (
        insert-Plus m.id _ r.db.state.applied _
          (ap (λ (s : RegistryState). s.applied) finished.state))
  ]

  pub run_deploy-Adds :
      (m : Migration) (r : Runner S) → Adds m r (run_deploy lib server wires should_verify m r)
  run_deploy-Adds m r = go m.manifest.transaction refl
    where
      go :
          (t : Transaction)
          → m.manifest.transaction ≡ t
          → Adds m r (run_deploy lib server wires should_verify m r)
      go required e =
          subst (Adds m r) (sym (run_deploy-required m r e)) (deploy_one-Adds (wires m.id).0 m r)
      go forbidden e =
          subst (Adds m r) (sym (run_deploy-forbidden m r e))
            (nontransactional-Adds (wires m.id).0 m r)

  verify_recorded-keeps :
      (w : Wire) (m : Migration) (script : Script) (identity : Text × Text) (r : Runner S)
      → (verify_recorded lib server w m script identity r).0.db.state ≡ r.db.state
  unfolding verify_recorded
  verify_recorded-keeps w m script identity r = (record_late-keeps w.late_event _ r).1

  verify_one-keeps :
      (w : Wire) (m : Migration) (r : Runner S)
      → (verify_one lib server w m r).0.db.state ≡ r.db.state
  unfolding verify_one
  verify_one-keeps w m r = elim (Option-cases m.verify) [
    | inl absent ↦ ground arith
    | inr (script, present) ↦
        elim (Result-cases
          (guard w.attempt registry_failed >> recorded_identity lib server w m r)) [
            | inl (x, refused) ↦ ground arith
            | inr (identity, read) ↦ ground (arith, verify_recorded-keeps w m script identity r)
          ]
  ]

  verified_result-keeps :
      (m : Migration) (result : MigrationResult) (r : Runner S)
      → (verified_result lib server wires should_verify m result r).0.db.state ≡ r.db.state
  unfolding verified_result
  verified_result-keeps m result r = elim (Bool-cases should_verify) [
    | inl on ↦ ground (arith, verify_one-keeps (wires m.id).1 m r)
    | inr off ↦ ground arith
  ]

  -- What `apply_one` does to the applied identities: it fails and adds nothing, or adds its own.
  abbrev pub Applies :
      Migration → MigrationResult → Runner S → Runner S × Result (Unit {0}) → Type 0
  Applies m result r deployed =
      let x = apply_deployed lib server wires should_verify m result deployed in
      Same (applied_to r) (applied_to x.0) × ((e : Error) × (x.1.1 ≡ some e))
      ⊎ Plus m.id (applied_to r) (applied_to x.0)

  pub apply_deployed-Applies :
      (m : Migration) (result : MigrationResult) (r : Runner S)
      (deployed : Runner S × Result (Unit {0}))
      → Adds m r deployed
      → Applies m result r deployed
  unfolding apply_deployed
  apply_deployed-Applies m result r (after, err e) h = elim h [
    | inl (same, _) ↦ inl (same, (e, refl))
    | inr plus ↦ inr plus
  ]
  apply_deployed-Applies m result r (after, ok _) h = elim h [
    | inl (same, (e, failed)) ↦ cc
    | inr plus ↦ inr (λ k.
        ap (λ (s : RegistryState). contains_key s.applied k) (verified_result-keeps m _ after)
        ∙ plus k)
  ]
