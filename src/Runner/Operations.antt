-- ===== src/Runner/Operations.antt =====
-- Every operation of the runner numbers its events upwards and keeps those before.
use zapadka.Common.{◌≡◌, refl, sym, ap, ◌∙◌, Bool, true, false, arith, inl, inr, Text, Option-cases}
use zapadka.Errors.{Error, Result, ok, err, Result-cases, >>=-eq-ok, ◌>>◌, ◌>>=◌}
use zapadka.Manifest.{Library, guard}
use zapadka.Migration.{Migration, Script, structural_definition}
use zapadka.Registry.{RegistryState, UnresolvedAttempt, registry_failed, record_applied}
use zapadka.Lint.Scripts.{ensure_runner_owns_transaction}
use zapadka.Server.{Reply, Server, Wire, answered, dropped, Database, Runner, with_state, execute}
use zapadka.Runner.{
  deploy_staged, deploy_inner, deploy_one, begin_attempt, finish_attempt, run_statement,
  deploy_nontransactional, resolve, revert_inner, revert_one, recorded_identity, verify_recorded,
  verify_one,
}
use zapadka.Runner.Numbering.{
  Extends-keep, IsGrown, IsGrown-refl, IsGrown-trans, record_late-IsGrown, close-IsGrown,
  after_failure-IsGrown, with_state-events,
}

pub ok_injective {ℓ} : {A : Type ℓ} {a b : A} → ok a ≡ ok b → a ≡ b
ok_injective h = cc

pub err-ne-ok {ℓ} : {A : Type ℓ} {x : Error} {a : A} → err x ≡ ok a → ⊥
err-ne-ok h = cc

pub ok_events {ℓ} : {S : Type ℓ} {a b : Database S} → ok a ≡ ok b → b.events ≡ a.events
ok_events {S} h = ap (λ (d : Database S). d.events) (sym (ok_injective h))

module _ {ℓ} {S : Type ℓ} (lib : Library) (server : Server S) (w : Wire) where
  execute-events :
      (sql : Text) (failure : Error) (db after : Database S)
      → execute server sql failure db ≡ ok after
      → after.events ≡ db.events
  unfolding execute
  execute-events sql failure db after h = elim (Option-cases (server.run_script sql db.schema)) [
    | inl failed ↦ absurd (ground arith)
    | inr (s, ran) ↦ ground arith
  ]

  deploy_staged-events :
      (m : Migration) (d : Text) (db after : Database S)
      → deploy_staged lib server w m d db ≡ ok after
      → after.events ≡ db.events
  unfolding deploy_staged
  deploy_staged-events m d db after h =
      let (_, _, a) = >>=-eq-ok (guard w.begin registry_failed) _ h in
      let (_, _, b) = >>=-eq-ok (guard w.timeouts registry_failed) _ a in
      let (_, _, c) =
        >>=-eq-ok (ensure_runner_owns_transaction lib.parser m.deploy.sql m.deploy.relative_path) _
          b in
      let (changed, ran, e) = >>=-eq-ok (execute server m.deploy.sql _ db) _ c in
      with_state-events changed after (record_applied w.row m d changed.state) e
      ∙ execute-events m.deploy.sql _ db changed ran

  deploy_inner-IsGrown :
      (m : Migration) (d : Text) (r : Runner S) → IsGrown r (deploy_inner lib server w m d r).0
  unfolding deploy_inner
  deploy_inner-IsGrown m d r =
      close-IsGrown w.event w.commit _ ok (deploy_staged lib server w m d r.db) r
        (λ copy h. deploy_staged-events m d r.db copy h) (λ logged db h. ok_events h)

  pub deploy_one-IsGrown :
      (m : Migration) (r : Runner S) → IsGrown r (deploy_one lib server w m r).0
  unfolding deploy_one
  deploy_one-IsGrown m r = elim (Result-cases (structural_definition lib m)) [
    | inl (x, failed) ↦ rw (failed, deploy_one) (IsGrown-refl r)
    | inr (d, hashed) ↦
        rw (hashed, deploy_one)
          (after_failure-IsGrown w.late_event _ r (deploy_inner lib server w m d r)
            (deploy_inner-IsGrown m d r))
  ]

  staged-events :
      (begun : Bool) (db copy : Database S) (changed : Result RegistryState)
      → (guard begun registry_failed >> with_state db changed) ≡ ok copy
      → copy.events ≡ db.events
  staged-events true db copy changed h = with_state-events db copy changed h
  staged-events false db copy changed h = absurd cc

  begin_attempt-IsGrown :
      (m : Migration) (d : Text) (r : Runner S) → IsGrown r (begin_attempt lib server w m d r).0
  unfolding begin_attempt
  begin_attempt-IsGrown m d r =
      close-IsGrown w.attempt_event w.attempt_commit _ ok _ r
        (λ copy h. staged-events w.begin r.db copy _ h) (λ logged db h. ok_events h)

  finish_attempt-IsGrown :
      (m : Migration) (d : Text) (r : Runner S) → IsGrown r (finish_attempt lib server w m d r).0
  unfolding finish_attempt
  finish_attempt-IsGrown m d r =
      close-IsGrown w.event w.commit _ ok _ r (λ copy h. staged-events w.finish r.db copy _ h)
        (λ logged db h. ok_events h)

  pub resolve-IsGrown :
      (a : UnresolvedAttempt) (applied : Bool) (r : Runner S)
      → IsGrown r (resolve lib server w a applied r).0
  unfolding resolve
  resolve-IsGrown a applied r =
      close-IsGrown w.event w.commit _ ok _ r (λ copy h. staged-events w.begin r.db copy _ h)
        (λ logged db h. ok_events h)

  run_statement-IsGrown :
      (m : Migration) (d : Text) (r : Runner S) → IsGrown r (run_statement lib server w m d r).0
  unfolding run_statement
  run_statement-IsGrown m d r =
      go w.statement refl (server.run_alone m.deploy.sql r.db.schema).1 refl
    where
      left : Runner S → S → Runner S
      left r s = record r { db = record r.db { schema = s } }

      left-IsGrown : (r : Runner S) (s : S) → IsGrown r (left r s)
      left-IsGrown r s = record {
        run = refl;
        tried = 0;
        counted = omega arith;
        events = Extends-keep r.db.events (omega arith);
      }

      go :
          (s : Reply)
          → w.statement ≡ s
          → (b : Bool) → (server.run_alone m.deploy.sql r.db.schema).1 ≡ b
          → IsGrown r (run_statement lib server w m d r).0
      go answered e true f =
          rw (e, f, run_statement)
            (IsGrown-trans r _ _ (left-IsGrown r _) (finish_attempt-IsGrown m d _))
      go answered e false f =
          rw (e, f, run_statement) (after_failure-IsGrown w.late_event _ r _ (left-IsGrown r _))
      go (dropped ran) e b f =
          rw (e, run_statement) (after_failure-IsGrown w.late_event _ r _ (left-IsGrown r _))

  pub deploy_nontransactional-IsGrown :
      (m : Migration) (r : Runner S) → IsGrown r (deploy_nontransactional lib server w m r).0
  unfolding deploy_nontransactional
  deploy_nontransactional-IsGrown m r =
      elim (Result-cases (
        structural_definition lib m
        >>= (λ definition. guard w.timeouts registry_failed >> ok definition))) [
          | inl (x, failed) ↦ rw (failed, deploy_nontransactional) (IsGrown-refl r)
          | inr (d, hashed) ↦ elim (Result-cases (begin_attempt lib server w m d r).1) [
            | inl (x, failed) ↦
                rw (hashed, failed, deploy_nontransactional) (begin_attempt-IsGrown m d r)
            | inr (_, begun) ↦
                rw (hashed, begun, deploy_nontransactional)
                  (IsGrown-trans r _ _ (begin_attempt-IsGrown m d r) (run_statement-IsGrown m d _))
          ]
        ]

  revert_inner-IsGrown :
      (m : Migration) (sc : Script) (identity : Text × Text) (r : Runner S)
      → IsGrown r (revert_inner lib server w m sc identity r).0
  unfolding revert_inner
  revert_inner-IsGrown m sc identity r =
      close-IsGrown w.event w.commit _ _ _ r
        (λ copy h.
          let (_, _, ran) =
            >>=-eq-ok
              (ensure_runner_owns_transaction lib.parser sc.sql sc.relative_path
                >> guard w.begin registry_failed
                >> guard w.timeouts registry_failed)
              _ h in
          execute-events sc.sql _ r.db copy ran)
        (λ logged db h. with_state-events logged db _ h)

  pub revert_one-IsGrown :
      (m : Migration) (r : Runner S) → IsGrown r (revert_one lib server w m r).0
  unfolding revert_one
  revert_one-IsGrown m r = elim (Option-cases m.revert) [
    | inl missing ↦ rw (missing, revert_one) (IsGrown-refl r)
    | inr (sc, present) ↦
        elim (Result-cases
          (guard w.attempt registry_failed >> recorded_identity lib server w m r)) [
            | inl (x, failed) ↦ rw (present, failed, revert_one) (IsGrown-refl r)
            | inr (identity, read) ↦
                rw (present, read, revert_one)
                  (after_failure-IsGrown w.late_event _ r
                    (revert_inner lib server w m sc identity r)
                    (revert_inner-IsGrown m sc identity r))
          ]
  ]

  pub verify_one-IsGrown :
      (m : Migration) (r : Runner S) → IsGrown r (verify_one lib server w m r).0
  unfolding verify_one verify_recorded
  verify_one-IsGrown m r = elim (Option-cases m.verify) [
    | inl missing ↦ rw (missing, verify_one) (IsGrown-refl r)
    | inr (sc, present) ↦
        elim (Result-cases
          (guard w.attempt registry_failed >> recorded_identity lib server w m r)) [
            | inl (x, failed) ↦ rw (present, failed, verify_one) (IsGrown-refl r)
            | inr (identity, read) ↦
                rw (present, read, verify_one) (record_late-IsGrown w.late_event _ r)
          ]
  ]
