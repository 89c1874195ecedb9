-- ===== src/Runner/Reverting.antt =====
-- A revert script and the removal of the row are kept together or undone together.
use mathlib.Core.Path.{subst}
use zapadka.Common.{
  ◌≡◌, refl, sym, ap, ◌∙◌, none, some, arith, Bool, ◌⊎◌, inl, inr, remove, Text, codes,
  Option-cases,
}
use zapadka.Errors.{
  Error, Result, ok, err, Result-cases, >>=-eq-ok, ◌>>◌, new, migration_missing_script,
}
use zapadka.Manifest.{Uuid, Library, guard}
use zapadka.Migration.{Migration, Script, revert}
use zapadka.Registry.{RegistryState, remove_applied, registry_failed}
use zapadka.Lint.Scripts.{ensure_runner_owns_transaction}
use zapadka.Server.{
  Server, Wire, Event, Database, Runner, execute, with_state, script_failed, after_failure,
}
use zapadka.Runner.{revert_inner, revert_one, revert_event, recorded_identity}
use zapadka.Runner.Transactions.{IsUndone, close_cases, after_failure-keeps}
use zapadka.Runner.Deploying.{execute-eq-ok}

abbrev pub without_row : RegistryState → Uuid → RegistryState
without_row state id = record state { applied = remove id state.applied }

module _ {ℓ} {S : Type ℓ} (server : Server S) where
  -- The revert script ran to its end without touching the transaction, and the row is gone.
  pub record IsReverted (lib : Library) (m : Migration) (script : Script) (r : Runner S)
      (after : Runner S × Result (Unit {0})) : Type ℓ where
    pub owned : ensure_runner_owns_transaction lib.parser script.sql script.relative_path ≡ ok tt
    pub ran : server.run_script script.sql r.db.schema ≡ some after.0.db.schema
    pub state : after.0.db.state ≡ without_row r.db.state m.id

  remove_applied-eq-ok :
      (granted : Bool) (id : Uuid) (state after : RegistryState)
      → remove_applied granted id state ≡ ok after
      → after ≡ without_row state id
  unfolding remove_applied
  remove_applied-eq-ok granted id state after h = ground arith

  module _ (lib : Library) (w : Wire) where
    failed_event : Migration → Script → Text × Text → Error → Event
    failed_event m script identity e =
        revert_event lib server w m script (codes "failed") identity (some e)

    identified : Migration → Runner S → Result (Text × Text)
    identified m r = guard w.attempt registry_failed >> recorded_identity lib server w m r

    revert_one-none :
        (m : Migration) (r : Runner S)
        → m.revert ≡ none
        → revert_one lib server w m r ≡ (r, err (new migration_missing_script))
    unfolding revert_one
    revert_one-none m r h = ground arith

    revert_one-err :
        (m : Migration) (r : Runner S) (script : Script) (x : Error)
        → m.revert ≡ some script
        → identified m r ≡ err x
        → revert_one lib server w m r ≡ (r, err x)
    unfolding revert_one identified
    revert_one-err m r script x h e = ground arith

    revert_one-ok :
        (m : Migration) (r : Runner S) (script : Script) (identity : Text × Text)
        → m.revert ≡ some script
        → identified m r ≡ ok identity
        → revert_one lib server w m r
          ≡ after_failure w.late_event
              (failed_event m script identity)
              (revert_inner lib server w m script identity r)
    unfolding revert_one identified failed_event
    revert_one-ok m r script identity h e = ground arith

    revert_inner_cases :
        (m : Migration) (script : Script) (identity : Text × Text) (r : Runner S)
        → IsUndone r (revert_inner lib server w m script identity r)
          ⊎ IsReverted lib m script r (revert_inner lib server w m script identity r)
    unfolding revert_inner
    revert_inner_cases m script identity r =
        elim (close_cases w.event w.commit
          (revert_event lib server w m script (codes "succeeded") identity none)
          (λ staged. with_state staged (remove_applied w.row m.id staged.state))
          (ensure_runner_owns_transaction lib.parser script.sql script.relative_path
            >> guard w.begin registry_failed
            >> guard w.timeouts registry_failed
            >> execute server script.sql (script_failed revert script.relative_path) r.db)
          r) [
            | inl undone ↦ inl undone
            | inr (copy, logged, db, staged, a, b, last, kept) ↦
                let (_, checked, executed) =
                  >>=-eq-ok
                    (ensure_runner_owns_transaction lib.parser script.sql script.relative_path
                      >> guard w.begin registry_failed
                      >> guard w.timeouts registry_failed)
                    _ staged in
                let (_, begun, _) =
                  >>=-eq-ok
                    (ensure_runner_owns_transaction lib.parser script.sql script.relative_path
                      >> guard w.begin registry_failed)
                    _ checked in
                let (_, owned, _) =
                  >>=-eq-ok
                    (ensure_runner_owns_transaction lib.parser script.sql script.relative_path) _
                    begun in
                let (ran, same) =
                  execute-eq-ok server script.sql (script_failed revert script.relative_path) r.db
                    copy executed in
                elim (Result-cases (remove_applied w.row m.id logged.state)) [
                  | inl (x, stopped) ↦ absurd (ground arith)
                  | inr (state, left) ↦
                      let is = remove_applied-eq-ok w.row m.id logged.state state left in
                      let e : (record logged { state = state }) ≡ db = ground arith in
                      inr (record {
                        owned = owned;
                        ran =
                            ran
                            ∙ ap some
                                (sym a ∙ (ap (λ (d : Database S). d.schema) e ∙ sym kept.schema));
                        state =
                            kept.state
                            ∙ (ap (λ (d : Database S). d.state) (sym e)
                                ∙ (is ∙ ap (λ s. without_row s m.id) (b ∙ same)));
                      })
                ]
          ]

    -- A revert is undone, or the revert script ran and the migration's row left with it. Whatever
    -- the server answers, there is no third case, and a revert that reports success is the second.
    pub revert_one_atomic :
        (m : Migration) (r : Runner S)
        → IsUndone r (revert_one lib server w m r)
          ⊎ (script : Script) × (m.revert ≡ some script)
            × IsReverted lib m script r (revert_one lib server w m r)
    revert_one_atomic m r = elim (Option-cases m.revert) [
      | inl missing ↦ inl (
          subst (IsUndone r) (sym (revert_one-none m r missing))
            (untouched (new migration_missing_script)))
      | inr (script, has) ↦ elim (Result-cases (identified m r)) [
        | inl (x, refused) ↦
            inl (subst (IsUndone r) (sym (revert_one-err m r script x has refused)) (untouched x))
        | inr (identity, read) ↦
            let inner = revert_inner lib server w m script identity r in
            let (a, b, c) =
              after_failure-keeps w.late_event (failed_event m script identity) inner in
            subst
              (λ after.
                IsUndone r after ⊎ (s : Script) × (m.revert ≡ some s) × IsReverted lib m s r after)
              (sym (revert_one-ok m r script identity has read))
              (elim (revert_inner_cases m script identity r) [
                | inl undone ↦ inl (record {
                  schema = a ∙ undone.schema;
                  state = b ∙ undone.state;
                  error = undone.error;
                  failed = c ∙ undone.failed;
                })
                | inr done ↦ inr (
                  script,
                  has,
                  record {
                    owned = done.owned;
                    ran = done.ran ∙ ap some (sym a);
                    state = b ∙ done.state;
                  },
                )
              ])
      ]
    ]
      where
        untouched : (x : Error) → IsUndone r (r, err x)
        untouched x = record { schema = refl; state = refl; error = x; failed = refl }
