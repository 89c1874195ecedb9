-- ===== src/Deploy/Accounts.antt =====
-- A run's report accounts for every migration that the run selected.
use mathlib.Core.Path.{subst}
use zapadka.Common.{
  ◌≡◌, refl, sym, ap, ◌∙◌, Bool, true, false, List, [], ◌∷◌, ◌++◌, Option, none, some, arith, All,
  get, append_assoc, append-nil, Text, Bool-cases, inl, inr, ◌⊎◌, Option-cases,
}
use zapadka.Errors.{Error, Result, ok, err}
use zapadka.Manifest.{Uuid, Library}
use zapadka.Migration.{Migration, deploy, structural_definition}
use zapadka.Graph.{Graph}
use zapadka.Registry.{structural_v1}
use zapadka.Server.{Server, Wire, Runner}
use zapadka.Runner.{verify_one}
use zapadka.Deploy.{
  Status, succeeded, skipped, Action, plan, deploying, MigrationResult, build_result, result_of,
  run_deploy, verified_result, apply_deployed, apply_one, Run, apply_all, with_script, script_of,
  verification_entry,
}

-- One entry for each identity, reported as skipped.
pub data IsSkipped : List Uuid → List MigrationResult → Type 0 where
  none_left : IsSkipped [] []
  skip :
      {x : MigrationResult} {ids : List Uuid} {xs : List MigrationResult}
      → x.status ≡ skipped
      → x.action ≡ plan
      → IsSkipped ids xs
      → IsSkipped (x.id ∷ ids) (x ∷ xs)

-- The entries of a run over the identities: successes, and after the first failure only skips.
pub data IsReport : List Uuid → List MigrationResult → Result (Unit {0}) → Type 0 where
  done : IsReport [] [] (ok tt)
  went :
      {x : MigrationResult} {ids : List Uuid} {xs : List MigrationResult} {o : Result (Unit {0})}
      → x.action ≡ deploying
      → x.status ≡ succeeded
      → x.error ≡ none
      → IsReport ids xs o
      → IsReport (x.id ∷ ids) (x ∷ xs) o
  stopped :
      {x : MigrationResult} {ids : List Uuid} {xs : List MigrationResult} {e : Error}
      → x.action ≡ deploying
      → x.error ≡ some e
      → IsSkipped ids xs
      → IsReport (x.id ∷ ids) (x ∷ xs) (err e)

module _ (lib : Library) (g : Graph) where
  -- The migration is in the project under its own identity, and its script parses.
  pub record IsSelectable (id : Uuid) : Type 0 where
    pub source : Migration
    pub found : get g.migrations id ≡ some source
    pub identity : source.id ≡ id
    pub definition : Text
    pub parses : structural_definition lib source ≡ ok definition

  module _ {ℓ} {S : Type ℓ} (server : Server S) (wires : Uuid → Wire × Wire)
      (should_verify : Bool) where
    result_of-eq :
        (m : Migration) (action : Action) (status : Status) (definition : Text)
        → structural_definition lib m ≡ ok definition
        → result_of lib m action status ≡ ok (build_result m action status definition structural_v1)
    unfolding result_of
    result_of-eq m action status definition h = ground arith

    apply_all-skips :
        (m : Migration) (id : Uuid) (rest : List Uuid) (r : Runner S)
        (report : List MigrationResult) (e : Error) (result : MigrationResult)
        → get g.migrations id ≡ some m
        → result_of lib m plan skipped ≡ ok result
        → apply_all lib server wires should_verify g (id ∷ rest) r report (some e)
          ≡ apply_all lib server wires should_verify g rest r (report ++ result ∷ []) (some e)
    unfolding apply_all
    apply_all-skips m id rest r report e result h k = ground arith

    pub apply_all-goes_on :
        (m : Migration) (id : Uuid) (rest : List Uuid) (r after : Runner S)
        (report : List MigrationResult) (result : MigrationResult) (error : Option Error)
        → get g.migrations id ≡ some m
        → apply_one lib server wires should_verify m r ≡ (after, ok (result, error))
        → apply_all lib server wires should_verify g (id ∷ rest) r report none
          ≡ apply_all lib server wires should_verify g rest after (report ++ result ∷ []) error
    unfolding apply_all
    apply_all-goes_on m id rest r after report result error h k = ground arith

    -- After a failure every migration is reported as skipped, and nothing is run.
    pub skips_rest :
        (ids : List Uuid) (r : Runner S) (report : List MigrationResult) (e : Error)
        → All IsSelectable ids
        → (xs : List MigrationResult) × ((apply_all lib server wires should_verify g ids r report
              (some e)).migrations
            ≡ report ++ xs)
          × IsSkipped ids xs
          × ((apply_all lib server wires should_verify g ids r report (some e)).outcome ≡ err e)
          × ((apply_all lib server wires should_verify g ids r report (some e)).runner ≡ r)
    unfolding apply_all
    skips_rest [] r report e h = ([], sym (append-nil report), none_left, refl, refl)
    skips_rest (id ∷ ids) r report e (s, h) =
        let result = build_result s.source plan skipped s.definition structural_v1 in
        let step =
          apply_all-skips s.source id ids r report e result s.found
            (result_of-eq s.source plan skipped s.definition s.parses) in
        let (xs, listed, shape, outcome, same) = skips_rest ids r (report ++ result ∷ []) e h in
        (
          result ∷ xs,
          ap (λ (x : Run lib server wires should_verify). x.migrations) step
              ∙ (listed ∙ append_assoc report (result ∷ []) xs),
          subst (λ i. IsSkipped (i ∷ ids) (result ∷ xs)) s.identity (skip refl refl shape),
          ap (λ (x : Run lib server wires should_verify). x.outcome) step ∙ outcome,
          ap (λ (x : Run lib server wires should_verify). x.runner) step ∙ same,
        )

    -- What `apply_one` reports of a migration.
    record IsEntry (m : Migration) (result : MigrationResult) (error : Option Error) : Type 0 where
      identity : result.id ≡ m.id
      action : result.action ≡ deploying
      same_error : result.error ≡ error
      success : error ≡ none → result.status ≡ succeeded

    verification_entry-IsEntry :
        (m : Migration) (result : MigrationResult) (outcome : Result Bool)
        → IsEntry m result none
        → IsEntry m (verification_entry m result outcome).0 (verification_entry m result outcome).1
    unfolding verification_entry
    verification_entry-IsEntry m result (ok true) h = record {
      identity = h.identity;
      action = h.action;
      same_error = h.same_error;
      success = h.success;
    }
    verification_entry-IsEntry m result (ok false) h = h
    verification_entry-IsEntry m result (err e) h = record {
      identity = h.identity;
      action = h.action;
      same_error = refl;
      success = λ k. cc;
    }

    verified_result-eq :
        (m : Migration) (result : MigrationResult) (r : Runner S)
        → ((verified_result lib server wires should_verify m result r).1 ≡ (result, none))
          ⊎ ((verified_result lib server wires should_verify m result r).1
              ≡ verification_entry m result (verify_one lib server (wires m.id).1 m r).1)
    unfolding verified_result
    verified_result-eq m result r = elim (Bool-cases should_verify) [
      | inl e ↦ inr (ground arith)
      | inr e ↦ inl (ground arith)
    ]

    verified-IsEntry :
        (m : Migration) (result : MigrationResult) (r : Runner S)
        → IsEntry m result none
        → IsEntry m
            (verified_result lib server wires should_verify m result r).1.0
            (verified_result lib server wires should_verify m result r).1.1
    verified-IsEntry m result r h = elim (verified_result-eq m result r) [
      | inl e ↦ subst (λ (x : MigrationResult × Option Error). IsEntry m x.0 x.1) (sym e) h
      | inr e ↦
          subst (λ (x : MigrationResult × Option Error). IsEntry m x.0 x.1) (sym e)
            (verification_entry-IsEntry m result (verify_one lib server (wires m.id).1 m r).1 h)
    ]

    apply_deployed-IsEntry :
        (m : Migration) (result : MigrationResult) (deployed : Runner S × Result (Unit {0}))
        → IsEntry m result none
        → IsEntry m
            (apply_deployed lib server wires should_verify m result deployed).1.0
            (apply_deployed lib server wires should_verify m result deployed).1.1
    unfolding apply_deployed
    apply_deployed-IsEntry m result (r, ok _) h =
        verified-IsEntry m
          (with_script result (script_of deploy m.deploy.relative_path m.deploy.sha256)) r
          (record {
            identity = h.identity;
            action = h.action;
            same_error = h.same_error;
            success = h.success;
          })
    apply_deployed-IsEntry m result (r, err e) h = record {
      identity = h.identity;
      action = h.action;
      same_error = refl;
      success = λ k. cc;
    }

    pub apply_one-eq :
        (m : Migration) (r : Runner S) (definition : Text)
        → structural_definition lib m ≡ ok definition
        → apply_one lib server wires should_verify m r ≡ (
            let result = build_result m deploying succeeded definition structural_v1 in
            let x =
              apply_deployed lib server wires should_verify m result
                (run_deploy lib server wires should_verify m r) in
            (x.0, ok x.1))
    unfolding apply_one
    apply_one-eq m r definition h =
        let e = result_of-eq m deploying succeeded definition h in ground arith

    -- A run whose migrations are in the project and parse reports every one of them, in order: those
    -- before the first failure as succeeded, the one that failed or whose verification failed with
    -- its error, and those after it as skipped. It returns the first failure.
    pub apply_all_accounts :
        (ids : List Uuid) (r : Runner S) (report : List MigrationResult)
        → All IsSelectable ids
        → (xs : List MigrationResult) × ((apply_all lib server wires should_verify g ids r report
              none).migrations
            ≡ report ++ xs)
          × IsReport ids xs (apply_all lib server wires should_verify g ids r report none).outcome
    unfolding apply_all
    apply_all_accounts [] r report h = ([], sym (append-nil report), done)
    apply_all_accounts (id ∷ ids) r report (s, h) =
        let result = build_result s.source deploying succeeded s.definition structural_v1 in
        let x =
          apply_deployed lib server wires should_verify s.source result
            (run_deploy lib server wires should_verify s.source r) in
        let entry =
          apply_deployed-IsEntry s.source result
            (run_deploy lib server wires should_verify s.source r)
            (record { identity = refl; action = refl; same_error = refl; success = λ k. refl }) in
        let step =
          apply_all-goes_on s.source id ids r x.0 report x.1.0 x.1.1 s.found
            (apply_one-eq s.source r s.definition s.parses) in
        let all : Runner S
            → List MigrationResult
            → Option Error
            → Run lib server wires should_verify =
          apply_all lib server wires should_verify g ids in
        let named : x.1.0.id ≡ id = entry.identity ∙ s.identity in
        elim (Option-cases x.1.1) [
          | inl clean ↦
              let full = step ∙ ap (all x.0 (report ++ x.1.0 ∷ [])) clean in
              let (xs, listed, shape) = apply_all_accounts ids x.0 (report ++ x.1.0 ∷ []) h in
              (
                x.1.0 ∷ xs,
                ap migrations_of full ∙ (listed ∙ append_assoc report (x.1.0 ∷ []) xs),
                subst (λ i. IsReport (i ∷ ids) (x.1.0 ∷ xs) (outcome_of (all_from r report))) named
                    (subst (IsReport (x.1.0.id ∷ ids) (x.1.0 ∷ xs)) (ap outcome_of (sym full))
                      (went entry.action (entry.success clean) (entry.same_error ∙ clean) shape)),
              )
          | inr (e, broken) ↦
              let full = step ∙ ap (all x.0 (report ++ x.1.0 ∷ [])) broken in
              let (xs, listed, shape, outcome, _) = skips_rest ids x.0 (report ++ x.1.0 ∷ []) e h in
              (
                x.1.0 ∷ xs,
                ap migrations_of full ∙ (listed ∙ append_assoc report (x.1.0 ∷ []) xs),
                subst (λ i. IsReport (i ∷ ids) (x.1.0 ∷ xs) (outcome_of (all_from r report))) named
                    (subst (IsReport (x.1.0.id ∷ ids) (x.1.0 ∷ xs))
                      (sym (ap outcome_of full ∙ outcome))
                      (stopped entry.action (entry.same_error ∙ broken) shape)),
              )
        ]
      where
        migrations_of : Run lib server wires should_verify → List MigrationResult
        migrations_of run = run.migrations

        outcome_of : Run lib server wires should_verify → Result (Unit {0})
        outcome_of run = run.outcome

        all_from : Runner S → List MigrationResult → Run lib server wires should_verify
        all_from r report = apply_all lib server wires should_verify g (id ∷ ids) r report none
