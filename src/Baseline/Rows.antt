-- ===== src/Baseline/Rows.antt =====
-- `Runner::baseline` holds what was there, and the migrations that it was given.
use mathlib.Core.Path.{subst}
use zapadka.Common.{
  ℕ, ◌≡◌, refl, ap, ◌∙◌, Bool, true, false, ◌||◌, List, [], ◌∷◌, none, arith, inl, inr, ◌⊎◌, Text,
  codes, contains, contains_key, get-insert, ◌==◌, if◌then◌else◌,
}
use zapadka.Errors.{Error, Result, ok, err, Result-cases, >>=-eq-ok}
use zapadka.Manifest.{Uuid, Library, as_str}
use zapadka.Migration.{Migration, structural_definition}
use zapadka.Graph.Closure.{ids}
use zapadka.Registry.{RegistryState, applied_row, registry_failed, record_applied, structural_v1}
use zapadka.Server.{Server, Wire, Database, Runner, next_sequence, record_event, settle, event_of}
use zapadka.Runner.{baseline_rows, definitions_of, baseline}
use zapadka.Runner.Transactions.{record_event-eq-ok, settle_cases}
use zapadka.Runner.Deploying.{record_applied-eq-ok, with_row}

abbrev pub row_ids : List (Migration × Text) → List Uuid
row_ids [] = []
row_ids ((m, d) ∷ rest) = m.id ∷ row_ids rest

-- A database with more identities held as applied.
pub record IsHeld {ℓ} {S : Type ℓ} (more : List Uuid) (db after : Database S) : Type ℓ where
  pub schema : after.schema ≡ db.schema
  pub held :
      (k : Uuid)
      → contains_key after.state.applied k ≡ (contains_key db.state.applied k || contains more k)

pub IsHeld-refl {ℓ} : {S : Type ℓ} (db : Database S) → IsHeld [] db db
IsHeld-refl db = record { schema = refl; held = λ k. ground arith }

with_row-held :
    (state : RegistryState) (m : Migration) (d : Text) (k : Uuid)
    → contains_key (with_row state m d).applied k ≡ (m.id == k || contains_key state.applied k)
with_row-held state m d k =
    let e = get-insert m.id (applied_row m d) state.applied k in ground arith

-- An operation fails and leaves the tables, or holds the migrations as well.
abbrev pub Baselined {ℓ} :
    {S : Type ℓ} → List Uuid → Runner S → Runner S × Result (Unit {0}) → Type ℓ
Baselined more r after =
    IsHeld [] r.db after.0.db × ((x : Error) × (after.1 ≡ err x)) ⊎ IsHeld more r.db after.0.db

module _ {ℓ} {S : Type ℓ} (lib : Library) (server : Server S) (w : Wire) where
  row-IsHeld :
      (sequence : ℕ) (m : Migration) (d : Text) (rest : List Uuid) (state : RegistryState)
      (db logged after : Database S)
      → record_applied (w.each_row sequence) m d db.state ≡ ok state
      → logged.schema ≡ db.schema
      → logged.state ≡ state
      → IsHeld rest logged after
      → IsHeld (m.id ∷ rest) db after
  row-IsHeld sequence m d rest state db logged after noted same_schema same_state more = record {
    schema = more.schema ∙ same_schema;
    held = λ k.
        let (fresh, is) =
          record_applied-eq-ok server (w.each_row sequence) m d db.state state noted in
        let e : contains_key logged.state.applied k
            ≡ (m.id == k || contains_key db.state.applied k) =
          ap (λ (t : RegistryState). contains_key t.applied k) (same_state ∙ is)
          ∙ with_row-held db.state m d k in
        ground (arith, more.held k);
  }

  pub baseline_rows-IsHeld :
      (rows : List (Migration × Text)) (sequence : ℕ) (run : Uuid) (db after : Database S)
      → (baseline_rows lib server w rows sequence run db).1 ≡ ok after
      → IsHeld (row_ids rows) db after
  unfolding baseline_rows
  baseline_rows-IsHeld [] sequence run db after =
      λ h. subst (IsHeld [] db) (let e : db ≡ after = ground arith in e) (IsHeld-refl db)
  baseline_rows-IsHeld ((m, d) ∷ rest) sequence run db after =
      elim (Result-cases (record_applied (w.each_row sequence) m d db.state)) [
        | inl (x, failed) ↦ rw (failed, baseline_rows) (λ h. absurd cc)
        | inr (state, noted) ↦
            let e =
              event_of (codes "baseline") (codes "succeeded") m (as_str m.manifest.transaction)
                (d, structural_v1) none none none in
            elim (Result-cases (
              record_event (w.each_event sequence) run (next_sequence sequence) e
                (record db { state = state }))) [
                  | inl (x, failed) ↦ rw (noted, failed, baseline_rows) (λ h. absurd cc)
                  | inr (done, wrote) ↦
                      let (a, b) =
                        record_event-eq-ok (w.each_event sequence) run (next_sequence sequence) e
                          (record db { state = state }) done wrote in
                      rw (noted, wrote, baseline_rows)
                        (λ h.
                          row-IsHeld sequence m d (row_ids rest) state db done after noted a b
                            (baseline_rows-IsHeld rest (next_sequence sequence) run done after h))
                ]
      ]

  row_ids-definitions_of :
      (ms : List Migration) (rows : List (Migration × Text))
      → definitions_of lib server w ms ≡ ok rows
      → row_ids rows ≡ ids ms
  unfolding definitions_of
  row_ids-definitions_of [] rows h = ap row_ids (let e : rows ≡ [] = ground arith in e)
  row_ids-definitions_of (m ∷ ms) rows h =
      let (d, _, a) = >>=-eq-ok (structural_definition lib m) _ h in
      let (more, b, c) = >>=-eq-ok (definitions_of lib server w ms) _ a in
      let e : rows ≡ (m, d) ∷ more = ground arith in
      ap row_ids e ∙ ap (λ (l : List Uuid). m.id ∷ l) (row_ids-definitions_of ms more b)

  settle-Baselined :
      (more : List Uuid) (r : Runner S) (sequence : ℕ) (outcome : Result (Database S))
      → ((db : Database S) → outcome ≡ ok db → IsHeld more r.db db)
      → Baselined more r (settle w.commit (record r { sequence = sequence }) outcome)
  settle-Baselined more r sequence outcome given =
      elim (settle_cases w.commit (record r { sequence = sequence }) outcome) [
        | inl undone ↦ inl (
          record {
            schema = undone.schema;
            held = λ k.
                let e = ap (λ (t : RegistryState). contains_key t.applied k) undone.state in
                ground arith;
          },
          (undone.error, undone.failed),
        )
        | inr (db, went, kept) ↦ inr (record {
          schema = kept.schema ∙ (given db went).schema;
          held = λ k.
              ap (λ (t : RegistryState). contains_key t.applied k) kept.state
              ∙ (given db went).held k;
        })
      ]

  either-Baselined :
      (b : Bool) (more : List Uuid) (r : Runner S) (p : Runner S × Result (Unit {0}))
      → Baselined more r p
      → Baselined more r (if b then p else (r, err registry_failed))
  either-Baselined true more r p h = h
  either-Baselined false more r p h = inl (IsHeld-refl r.db, (registry_failed, refl))

  pub baseline-Baselined :
      (ms : List Migration) (r : Runner S) → Baselined (ids ms) r (baseline lib server w ms r)
  unfolding baseline
  baseline-Baselined ms r = elim (Result-cases (definitions_of lib server w ms)) [
    | inl (x, failed) ↦ rw (failed, baseline) (inl (IsHeld-refl r.db, (x, refl)))
    | inr (rows, hashed) ↦
        rw (hashed, baseline)
          (either-Baselined w.begin (ids ms) r
            (settle w.commit
              (record r { sequence = (baseline_rows lib server w rows r.sequence r.run_id r.db).0 })
              (baseline_rows lib server w rows r.sequence r.run_id r.db).1)
            (settle-Baselined (ids ms) r
              (baseline_rows lib server w rows r.sequence r.run_id r.db).0
              (baseline_rows lib server w rows r.sequence r.run_id r.db).1
              (λ db h.
                subst (λ l. IsHeld l r.db db) (row_ids-definitions_of ms rows hashed)
                  (baseline_rows-IsHeld rows r.sequence r.run_id r.db db h))))
  ]
