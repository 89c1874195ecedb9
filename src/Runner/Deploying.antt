-- ===== src/Runner/Deploying.antt =====
-- A script and the row that records it are kept together or undone together.
use mathlib.Core.Path.{subst}
use zapadka.Common.{
  ◌≡◌, refl, sym, ap, ◌∙◌, Bool, false, none, some, arith, ◌⊎◌, inl, inr, insert, contains_key,
  Text, codes, Option-cases,
}
use zapadka.Errors.{Error, Result, ok, err, Result-cases, >>=-eq-ok}
use zapadka.Manifest.{Library, guard, as_str}
use zapadka.Migration.{Migration, deploy, structural_definition}
use zapadka.Registry.{RegistryState, applied_row, record_applied, registry_failed}
use zapadka.Lint.Scripts.{ensure_runner_owns_transaction}
use zapadka.Server.{Server, Wire, Event, Database, Runner, execute, script_failed, after_failure}
use zapadka.Runner.{deploy_staged, deploy_inner, deploy_one, deploy_event}
use zapadka.Runner.Transactions.{IsUndone, close_cases, after_failure-keeps}

-- The registry with the row of a migration.
abbrev pub with_row : RegistryState → Migration → Text → RegistryState
with_row state m definition = record state {
  applied = insert m.id (applied_row m definition) state.applied;
}

module _ {ℓ} {S : Type ℓ} (server : Server S) where
  -- The script ran to its end without touching the transaction, and its row is new.
  pub record IsDeployed (lib : Library) (m : Migration) (definition : Text) (r : Runner S)
      (after : Runner S × Result (Unit {0})) : Type ℓ where
    pub owned :
        ensure_runner_owns_transaction lib.parser m.deploy.sql m.deploy.relative_path ≡ ok tt
    pub ran : server.run_script m.deploy.sql r.db.schema ≡ some after.0.db.schema
    pub fresh : contains_key r.db.state.applied m.id ≡ false
    pub state : after.0.db.state ≡ with_row r.db.state m definition

  pub execute-eq-ok :
      (sql : Text) (failure : Error) (db changed : Database S)
      → execute server sql failure db ≡ ok changed
      → (server.run_script sql db.schema ≡ some changed.schema) × (changed.state ≡ db.state)
  unfolding execute
  execute-eq-ok sql failure db changed h = elim (Option-cases (server.run_script sql db.schema)) [
    | inl failed ↦ cc
    | inr (s, ran) ↦ (ground arith, ground arith)
  ]

  pub record_applied-eq-ok :
      (granted : Bool) (m : Migration) (definition : Text) (state after : RegistryState)
      → record_applied granted m definition state ≡ ok after
      → (contains_key state.applied m.id ≡ false) × (after ≡ with_row state m definition)
  unfolding record_applied
  record_applied-eq-ok granted m definition state after h = (ground arith, ground arith)

  module _ (lib : Library) (w : Wire) where
    deploy_staged-eq-ok :
        (m : Migration) (definition : Text) (db staged : Database S)
        → deploy_staged lib server w m definition db ≡ ok staged
        → (ensure_runner_owns_transaction lib.parser m.deploy.sql m.deploy.relative_path ≡ ok tt)
          × (server.run_script m.deploy.sql db.schema ≡ some staged.schema)
          × (contains_key db.state.applied m.id ≡ false)
          × (staged.state ≡ with_row db.state m definition)
    unfolding deploy_staged
    deploy_staged-eq-ok m definition db staged h =
        let (_, _, after_begin) = >>=-eq-ok (guard w.begin registry_failed) _ h in
        let (_, _, after_timeouts) = >>=-eq-ok (guard w.timeouts registry_failed) _ after_begin in
        let (_, owned, after_owned) =
          >>=-eq-ok (ensure_runner_owns_transaction lib.parser m.deploy.sql m.deploy.relative_path)
            _ after_timeouts in
        let failure = script_failed deploy m.deploy.relative_path in
        let (changed, executed, recorded) =
          >>=-eq-ok (execute server m.deploy.sql failure db) _ after_owned in
        let (ran, same) = execute-eq-ok m.deploy.sql failure db changed executed in
        elim (Result-cases (record_applied w.row m definition changed.state)) [
          | inl (x, stopped) ↦ absurd (ground arith)
          | inr (state, noted) ↦
              let (fresh, is) = record_applied-eq-ok w.row m definition changed.state state noted in
              let e : (record changed { state = state }) ≡ staged = ground arith in
              (
                owned,
                ran ∙ ap (λ (d : Database S). some d.schema) e,
                ap (λ (t : RegistryState). contains_key t.applied m.id) (sym same) ∙ fresh,
                ap (λ (d : Database S). d.state) (sym e)
                    ∙ (is ∙ ap (λ t. with_row t m definition) same),
              )
        ]

    failed_event : Migration → Text → Error → Event
    failed_event m definition e =
        deploy_event lib server w m (as_str m.manifest.transaction) (codes "failed") definition
          (some e)

    deploy_one-err :
        (m : Migration) (r : Runner S) (x : Error)
        → structural_definition lib m ≡ err x
        → deploy_one lib server w m r ≡ (r, err x)
    unfolding deploy_one
    deploy_one-err m r x h = ground arith

    deploy_one-ok :
        (m : Migration) (r : Runner S) (definition : Text)
        → structural_definition lib m ≡ ok definition
        → deploy_one lib server w m r
          ≡ after_failure w.late_event
              (failed_event m definition)
              (deploy_inner lib server w m definition r)
    unfolding deploy_one failed_event
    deploy_one-ok m r definition h = ground arith

    deploy_inner_cases :
        (m : Migration) (definition : Text) (r : Runner S)
        → IsUndone r (deploy_inner lib server w m definition r)
          ⊎ IsDeployed lib m definition r (deploy_inner lib server w m definition r)
    unfolding deploy_inner
    deploy_inner_cases m definition r =
        elim (close_cases w.event w.commit
          (deploy_event lib server w m (as_str m.manifest.transaction) (codes "succeeded")
            definition none)
          ok (deploy_staged lib server w m definition r.db) r) [
            | inl undone ↦ inl undone
            | inr (copy, logged, db, staged, a, b, last, kept) ↦
                let (owned, ran, fresh, state) =
                  deploy_staged-eq-ok m definition r.db copy staged in
                let e : logged ≡ db = ground arith in
                let f = ap (λ (d : Database S). d.schema) e in
                let g = ap (λ (d : Database S). d.state) e in
                inr (record {
                  owned = owned;
                  ran = ran ∙ ap some (sym a ∙ (f ∙ sym kept.schema));
                  fresh = fresh;
                  state = kept.state ∙ (sym g ∙ (b ∙ state));
                })
          ]

    recorded_cases :
        (m : Migration) (definition : Text) (r : Runner S) (event_for : Error → Event)
        (after : Runner S × Result (Unit {0}))
        → IsUndone r after ⊎ IsDeployed lib m definition r after
        → IsUndone r (after_failure w.late_event event_for after)
          ⊎ IsDeployed lib m definition r (after_failure w.late_event event_for after)
    recorded_cases m definition r event_for after h =
        let (a, b, c) = after_failure-keeps w.late_event event_for after in
        elim h [
          | inl undone ↦ inl (record {
            schema = a ∙ undone.schema;
            state = b ∙ undone.state;
            error = undone.error;
            failed = c ∙ undone.failed;
          })
          | inr done ↦ inr (record {
            owned = done.owned;
            ran = done.ran ∙ ap some (sym a);
            fresh = done.fresh;
            state = b ∙ done.state;
          })
        ]

    -- A deploy is undone, or the script ran and the row that says so was written with it. Whatever
    -- the server answers, there is no third case, and a deploy that reports success is the second.
    pub deploy_one_atomic :
        (m : Migration) (r : Runner S)
        → IsUndone r (deploy_one lib server w m r)
          ⊎ (definition : Text) × (structural_definition lib m ≡ ok definition)
            × IsDeployed lib m definition r (deploy_one lib server w m r)
    deploy_one_atomic m r = elim (Result-cases (structural_definition lib m)) [
      | inl (x, refused) ↦ inl (
          subst (IsUndone r) (sym (deploy_one-err m r x refused))
            (record { schema = refl; state = refl; error = x; failed = refl }))
      | inr (definition, computed) ↦
          subst
            (λ after.
              IsUndone r after
              ⊎ (d : Text) × (structural_definition lib m ≡ ok d) × IsDeployed lib m d r after)
            (sym (deploy_one-ok m r definition computed))
            (elim (recorded_cases m definition r (failed_event m definition)
              (deploy_inner lib server w m definition r) (deploy_inner_cases m definition r)) [
                | inl undone ↦ inl undone
                | inr done ↦ inr (definition, computed, done)
              ])
    ]
