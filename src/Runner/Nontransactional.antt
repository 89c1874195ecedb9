-- ===== src/Runner/Nontransactional.antt =====
-- A statement that cannot be rolled back never goes unrecorded.
use mathlib.Core.Path.{subst, ap₂}
use zapadka.Common.{
  ◌≡◌, refl, sym, ap, ◌∙◌, true, false, none, some, arith, ◌⊎◌, inl, inr, insert, remove, Text,
  codes, Bool, if◌then◌else◌,
}
use zapadka.Errors.{
  Error, Result, ok, err, Result-cases, ◌>>◌, ◌>>=◌, new, at, file, deploy_outcome_unknown,
}
use zapadka.Manifest.{Library, guard}
use zapadka.Migration.{Migration, deploy, structural_definition}
use zapadka.Registry.{
  RegistryState, attempt_of, applied_row, record_attempt, record_applied, clear_attempt,
  registry_failed,
}
use zapadka.Server.{
  Server, Wire, Reply, answered, dropped, Event, Database, Runner, with_state, script_failed,
  after_failure,
}
use zapadka.Runner.{
  begin_attempt, finish_attempt, run_statement, deploy_nontransactional, deploy_event,
}
use zapadka.Runner.Transactions.{IsUndone, close_cases, after_failure-keeps}

-- The registry with the attempt's row, and with the migration applied in its place.
abbrev pub with_attempt : RegistryState → Migration → Text → RegistryState
with_attempt state m definition = record state {
  unresolved = insert m.id (attempt_of m definition) state.unresolved;
}

abbrev pub finished : RegistryState → Migration → Text → RegistryState
finished state m definition = record state {
  applied = insert m.id (applied_row m definition) state.applied;
  unresolved = remove m.id state.unresolved;
}

module _ {ℓ} {S : Type ℓ} (server : Server S) where
  -- What the statement leaves of the schema, when it was run and when it was not.
  abbrev pub IsRunOrNot : Migration → Runner S → Runner S → Type ℓ
  IsRunOrNot m r after =
      (after.db.schema ≡ r.db.schema)
      ⊎ (after.db.schema ≡ (server.run_alone m.deploy.sql r.db.schema).0)

  -- The attempt is on record, and the schema is what it was or what the statement left behind.
  pub record IsPending (m : Migration) (definition : Text) (r : Runner S)
      (after : Runner S × Result (Unit {0})) : Type ℓ where
    pub state : after.0.db.state ≡ with_attempt r.db.state m definition
    pub schema : IsRunOrNot m r after.0
    pub error : Error
    pub failed : after.1 ≡ err error

  -- The statement reported success, and the migration is applied in the place of the attempt.
  pub record IsFinished (m : Migration) (definition : Text) (r : Runner S)
      (after : Runner S × Result (Unit {0})) : Type ℓ where
    pub ran : server.run_alone m.deploy.sql r.db.schema ≡ (after.0.db.schema, true)
    pub state : after.0.db.state ≡ finished (with_attempt r.db.state m definition) m definition

  module _ (lib : Library) (w : Wire) (m : Migration) (definition : Text) where
    -- Either nothing happened, or the attempt was committed before anything ran.
    begin_attempt_cases :
        (r : Runner S)
        → IsUndone r (begin_attempt lib server w m definition r)
          ⊎ ((begin_attempt lib server w m definition r).0.db.schema ≡ r.db.schema)
            × ((begin_attempt lib server w m definition r).0.db.state
                ≡ with_attempt r.db.state m definition)
    unfolding begin_attempt record_attempt
    begin_attempt_cases r =
        elim (close_cases w.attempt_event w.attempt_commit
          (deploy_event lib server w m (codes "forbidden") (codes "attempted") definition none) ok
          (guard w.begin registry_failed
            >> with_state r.db (record_attempt w.attempt m definition r.db.state))
          r) [
            | inl undone ↦ inl undone
            | inr (copy, logged, db, staged, a, b, last, kept) ↦
                let e : logged ≡ db = ground arith in
                let f : (copy.schema ≡ r.db.schema)
                    × (copy.state ≡ with_attempt r.db.state m definition) =
                  (ground arith, ground arith) in
                inr (
                  kept.schema ∙ (ap (λ (d : Database S). d.schema) (sym e) ∙ (a ∙ f.0)),
                  kept.state ∙ (ap (λ (d : Database S). d.state) (sym e) ∙ (b ∙ f.1)),
                )
          ]

    finish_attempt_cases :
        (r : Runner S)
        → IsUndone r (finish_attempt lib server w m definition r)
          ⊎ ((finish_attempt lib server w m definition r).0.db.schema ≡ r.db.schema)
            × ((finish_attempt lib server w m definition r).0.db.state
                ≡ finished r.db.state m definition)
    unfolding finish_attempt record_applied clear_attempt
    finish_attempt_cases r =
        elim (close_cases w.event w.commit
          (deploy_event lib server w m (codes "forbidden") (codes "succeeded") definition none) ok
          (guard w.finish registry_failed
            >> with_state r.db
                (record_applied w.row m definition r.db.state >>= clear_attempt w.cleared m.id))
          r) [
            | inl undone ↦ inl undone
            | inr (copy, logged, db, staged, a, b, last, kept) ↦
                let e : logged ≡ db = ground arith in
                let f : (copy.schema ≡ r.db.schema)
                    × (copy.state ≡ finished r.db.state m definition) =
                  (ground arith, ground arith) in
                inr (
                  kept.schema ∙ (ap (λ (d : Database S). d.schema) (sym e) ∙ (a ∙ f.0)),
                  kept.state ∙ (ap (λ (d : Database S). d.state) (sym e) ∙ (b ∙ f.1)),
                )
          ]

    -- The runner once the statement has left its mark.
    ran_from : Runner S → Bool → Runner S
    ran_from r ran = record r {
      db = record r.db {
        schema = if ran then (server.run_alone m.deploy.sql r.db.schema).0 else r.db.schema;
      };
    }

    event_for : Text → Error → Event
    event_for outcome e =
        deploy_event lib server w m (codes "forbidden") outcome definition (some e)

    -- How `run_statement` goes on: to the record of a success, or to that of a failure.
    Ends : Runner S → Type ℓ
    Ends r =
        ((server.run_alone m.deploy.sql r.db.schema).1 ≡ true)
          × (run_statement lib server w m definition r
              ≡ finish_attempt lib server w m definition (ran_from r true))
        ⊎ (outcome : Text) × (x : Error) × (ran : Bool) × (run_statement lib server w m definition r
            ≡ after_failure w.late_event (event_for outcome) (ran_from r ran, err x))

    run_statement-Ends : (r : Runner S) → Ends r
    unfolding run_statement ran_from event_for Ends
    run_statement-Ends r = go w.statement refl (server.run_alone m.deploy.sql r.db.schema).1 refl
      where
        go :
            (s : Reply)
            → w.statement ≡ s
            → (b : Bool) → (server.run_alone m.deploy.sql r.db.schema).1 ≡ b
            → Ends r
        go answered e true f = inl (f, ground arith)
        go answered e false f =
            inr (codes "failed", script_failed deploy m.deploy.relative_path, true, ground arith)
        go (dropped ran) e b f = inr (
          codes "unknown",
          at (file m.deploy.relative_path) (new deploy_outcome_unknown),
          ran,
          ground arith,
        )

    left_by :
        (r noted after : Runner S) (ran : Bool)
        → noted.db.schema ≡ r.db.schema
        → after.db.schema ≡ (ran_from noted ran).db.schema
        → IsRunOrNot m r after
    unfolding ran_from
    left_by r noted after true same_schema h =
        inr (h ∙ ap (λ s. (server.run_alone m.deploy.sql s).0) same_schema)
    left_by r noted after false same_schema h = inl (h ∙ same_schema)

    run_statement_cases :
        (r noted : Runner S)
        → noted.db.schema ≡ r.db.schema
        → noted.db.state ≡ with_attempt r.db.state m definition
        → IsPending m definition r (run_statement lib server w m definition noted)
          ⊎ IsFinished m definition r (run_statement lib server w m definition noted)
    unfolding Ends ran_from
    run_statement_cases r noted same_schema same_state = elim (run_statement-Ends noted) [
      | inl (reported, e) ↦
          subst (λ after. IsPending m definition r after ⊎ IsFinished m definition r after) (sym e)
            (elim (finish_attempt_cases (ran_from noted true)) [
              | inl undone ↦ inl (record {
                state = undone.state ∙ same_state;
                schema =
                    inr (undone.schema ∙ ap (λ s. (server.run_alone m.deploy.sql s).0) same_schema);
                error = undone.error;
                failed = undone.failed;
              })
              | inr (schema, state) ↦ inr (record {
                ran =
                    ap (server.run_alone m.deploy.sql) (sym same_schema)
                    ∙ ap₂ (λ a b. (a, b)) (sym schema) reported;
                state = state ∙ ap (λ s. finished s m definition) same_state;
              })
            ])
      | inr (outcome, x, ran, e) ↦
          let after = after_failure w.late_event (event_for outcome) (ran_from noted ran, err x) in
          let (a, b, c) =
            after_failure-keeps w.late_event (event_for outcome) (ran_from noted ran, err x) in
          subst (λ after. IsPending m definition r after ⊎ IsFinished m definition r after) (sym e)
            (inl (record {
              state = b ∙ same_state;
              schema = left_by r noted after.0 ran same_schema a;
              error = x;
              failed = c;
            }))
    ]

  module _ (lib : Library) (w : Wire) (m : Migration) where
    prepared : Result Text
    prepared =
        structural_definition lib m
        >>= (λ definition. guard w.timeouts registry_failed >> ok definition)

    prepared-eq-ok :
        (definition : Text) → prepared ≡ ok definition → structural_definition lib m ≡ ok definition
    unfolding prepared
    prepared-eq-ok definition h = ground arith

    deploy_nontransactional-err :
        (r : Runner S) (x : Error)
        → prepared ≡ err x
        → deploy_nontransactional lib server w m r ≡ (r, err x)
    unfolding deploy_nontransactional prepared
    deploy_nontransactional-err r x h = ground arith

    deploy_nontransactional-undone :
        (r : Runner S) (definition : Text) (x : Error)
        → prepared ≡ ok definition
        → (begin_attempt lib server w m definition r).1 ≡ err x
        → deploy_nontransactional lib server w m r
          ≡ ((begin_attempt lib server w m definition r).0, err x)
    unfolding deploy_nontransactional prepared
    deploy_nontransactional-undone r definition x h e = ground arith

    deploy_nontransactional-ran :
        (r : Runner S) (definition : Text)
        → prepared ≡ ok definition
        → (begin_attempt lib server w m definition r).1 ≡ ok tt
        → deploy_nontransactional lib server w m r
          ≡ run_statement lib server w m definition (begin_attempt lib server w m definition r).0
    unfolding deploy_nontransactional prepared
    deploy_nontransactional-ran r definition h e = ground arith

    -- Whatever the server answers, a nontransactional deploy ends in one of three ways: nothing
    -- changed and it failed; the attempt is on record, nothing else in the registry changed, the schema
    -- is what it was or what the statement left behind, and it failed, also where the server refused
    -- the statement; or the statement reported success and the migration is applied in the attempt's place.
    pub deploy_nontransactional_recorded :
        (r : Runner S)
        → IsUndone r (deploy_nontransactional lib server w m r)
          ⊎ (definition : Text) × (structural_definition lib m ≡ ok definition)
            × (IsPending m definition r (deploy_nontransactional lib server w m r)
                ⊎ IsFinished m definition r (deploy_nontransactional lib server w m r))
    deploy_nontransactional_recorded r = elim (Result-cases prepared) [
      | inl (x, h) ↦ inl (
          subst (IsUndone r) (sym (deploy_nontransactional-err r x h))
            (record { schema = refl; state = refl; error = x; failed = refl }))
      | inr (definition, h) ↦
          let computed = prepared-eq-ok definition h in
          elim (Result-cases (begin_attempt lib server w m definition r).1) [
            | inl (x, e) ↦
                let eq = sym (deploy_nontransactional-undone r definition x h e) in
                elim (begin_attempt_cases lib w m definition r) [
                  | inl undone ↦ inl (
                      subst (IsUndone r) eq (record {
                        schema = undone.schema;
                        state = undone.state;
                        error = x;
                        failed = refl;
                      }))
                  | inr (a, b) ↦ inr (
                    definition,
                    computed,
                    inl (
                        subst (IsPending m definition r) eq
                          (record { state = b; schema = inl a; error = x; failed = refl })),
                  )
                ]
            | inr (done, e) ↦ elim (begin_attempt_cases lib w m definition r) [
              | inl undone ↦ absurd (let f = undone.failed in cc)
              | inr (a, b) ↦ inr (
                definition,
                computed,
                subst (λ after. IsPending m definition r after ⊎ IsFinished m definition r after)
                    (sym (deploy_nontransactional-ran r definition h e))
                    (run_statement_cases lib w m definition r
                      (begin_attempt lib server w m definition r).0 a b),
              )
            ]
          ]
    ]
