-- ===== src/Runner/Transactions.antt =====
-- What the end of a transaction leaves behind, and what recording a failure leaves alone.
use zapadka.Common.{ℕ, ◌≡◌, refl, ◌∙◌, Bool, true, false, arith, ◌⊎◌, inl, inr}
use zapadka.Errors.{Error, Result, ok, err, ◌>>=◌, >>=-eq-ok}
use zapadka.Registry.{registry_failed}
use zapadka.Server.{
  Commit, committed, refused, lost, Event, Database, Runner, next_sequence, record_event,
  record_late, settle, commit, close, after_failure,
}

-- The schema and the registry's tables are as they were, and the operation failed.
pub record IsUndone {ℓ} {S : Type ℓ} (r : Runner S) (after : Runner S × Result (Unit {0}))
    : Type ℓ where
  pub schema : after.0.db.schema ≡ r.db.schema
  pub state : after.0.db.state ≡ r.db.state
  pub error : Error
  pub failed : after.1 ≡ err error

-- The transaction's copy is now the database.
pub record IsKept {ℓ} {S : Type ℓ} (db : Database S) (after : Runner S × Result (Unit {0}))
    : Type ℓ where
  pub schema : after.0.db.schema ≡ db.schema
  pub state : after.0.db.state ≡ db.state

module _ {ℓ} {S : Type ℓ} where
  pub record_event-eq-ok :
      (granted : Bool) (run_id : ℕ) (sequence : ℕ) (e : Event) (db logged : Database S)
      → record_event granted run_id sequence e db ≡ ok logged
      → (logged.schema ≡ db.schema) × (logged.state ≡ db.state)
  unfolding record_event
  record_event-eq-ok granted run_id sequence e db logged h = (ground arith, ground arith)

  pub settle_cases :
      (ending : Commit) (r : Runner S) (outcome : Result (Database S))
      → IsUndone r (settle ending r outcome)
        ⊎ (db : Database S) × (outcome ≡ ok db) × IsKept db (settle ending r outcome)
  unfolding settle commit
  settle_cases ending r (err x) =
      inl (record { schema = refl; state = refl; error = x; failed = refl })
  settle_cases committed r (ok db) = inr (db, refl, record { schema = refl; state = refl })
  settle_cases refused r (ok db) =
      inl (record { schema = refl; state = refl; error = registry_failed; failed = refl })
  settle_cases (lost true) r (ok db) = inr (db, refl, record { schema = refl; state = refl })
  settle_cases (lost false) r (ok db) =
      inl (record { schema = refl; state = refl; error = registry_failed; failed = refl })

  -- A transaction is undone, or what follows its event made the database from the staged copy.
  pub close_cases :
      (granted : Bool) (ending : Commit) (e : Event) (last : Database S → Result (Database S))
      (staged : Result (Database S)) (r : Runner S)
      → IsUndone r (close granted ending e last staged r)
        ⊎ (copy logged db : Database S) × (staged ≡ ok copy)
          × (logged.schema ≡ copy.schema)
          × (logged.state ≡ copy.state)
          × (last logged ≡ ok db)
          × IsKept db (close granted ending e last staged r)
  unfolding close
  close_cases granted ending e last (err x) r =
      inl (record { schema = refl; state = refl; error = x; failed = refl })
  close_cases granted ending e last (ok copy) r =
      let next = next_sequence r.sequence in
      elim (settle_cases ending (record r { sequence = next })
        (record_event granted r.run_id next e copy >>= last)) [
          | inl undone ↦ inl (record {
            schema = undone.schema;
            state = undone.state;
            error = undone.error;
            failed = undone.failed;
          })
          | inr (db, went, kept) ↦
              let (logged, wrote, rest) =
                >>=-eq-ok (record_event granted r.run_id next e copy) last went in
              let (same_schema, same_state) =
                record_event-eq-ok granted r.run_id next e copy logged wrote in
              inr (copy, logged, db, refl, same_schema, same_state, rest, kept)
        ]

  pub record_late-keeps :
      (ending : Commit) (e : Event) (r : Runner S)
      → ((record_late ending e r).0.db.schema ≡ r.db.schema)
        × ((record_late ending e r).0.db.state ≡ r.db.state)
  unfolding record_late
  record_late-keeps ending e r =
      let numbered = record r { sequence = next_sequence r.sequence } in
      elim (settle_cases ending numbered
        (record_event true r.run_id (next_sequence r.sequence) e r.db)) [
          | inl undone ↦ (undone.schema, undone.state)
          | inr (db, wrote, kept) ↦
              let (a, b) =
                record_event-eq-ok true r.run_id (next_sequence r.sequence) e r.db db wrote in
              (kept.schema ∙ a, kept.state ∙ b)
        ]

  pub after_failure-keeps :
      (ending : Commit) (event_for : Error → Event) (after : Runner S × Result (Unit {0}))
      → ((after_failure ending event_for after).0.db.schema ≡ after.0.db.schema)
        × ((after_failure ending event_for after).0.db.state ≡ after.0.db.state)
        × ((after_failure ending event_for after).1 ≡ after.1)
  unfolding after_failure
  after_failure-keeps ending event_for (r, ok done) = (refl, refl, refl)
  after_failure-keeps ending event_for (r, err e) =
      let (a, b) = record_late-keeps ending (event_for e) r in (a, b, refl)
