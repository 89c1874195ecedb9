-- ===== src/Runner/Baselining.antt =====
-- `Runner::baseline` numbers its events upwards, one for each migration that it gets to.
use mathlib.Core.Path.{subst}
use zapadka.Common.{
  ℕ, ◌+◌, ◌%◌, ◌^◌, ◌≡◌, refl, sym, Bool, true, false, List, [], ◌∷◌, none, arith, inl, inr, Text,
  if◌then◌else◌, codes,
}
use zapadka.Errors.{Error, Result, ok, err, Result-cases}
use zapadka.Manifest.{Uuid, Library, as_str}
use zapadka.Migration.{Migration}
use zapadka.Registry.{registry_failed, record_applied, structural_v1}
use zapadka.Server.{
  Server, Wire, Commit, committed, refused, lost, Database, Runner, next_sequence, record_event,
  settle, commit, with_state, event_of,
}
use zapadka.Runner.{baseline_rows, definitions_of, baseline}
use zapadka.Runner.Numbering.{
  Extends, Extends-keep, Extends-trans, IsGrown, IsGrown-refl, record_event-Extends,
  next_sequence_lem, with_state-events,
}
use zapadka.Runner.Operations.{err-ne-ok, ok_events}

module _ {ℓ} {S : Type ℓ} (lib : Library) (server : Server S) (w : Wire) where
  -- The loop of a baseline counts each event it tries to write.
  record Counts (sequence : ℕ) (run : Uuid) (db : Database S) (p : ℕ × Result (Database S))
      : Type ℓ where
    tried : ℕ
    counted : p.0 % 2 ^ 32 ≡ (sequence + tried) % 2 ^ 32
    extends :
        (after : Database S) → p.1 ≡ ok after → Extends run sequence 0 tried db.events after.events

  Counts-err :
      (sequence number tried : ℕ) (run : Uuid) (db : Database S) (x : Error)
      → number % 2 ^ 32 ≡ (sequence + tried) % 2 ^ 32
      → Counts sequence run db (number, err x)
  Counts-err sequence number tried run db x h = record {
    tried = tried;
    counted = h;
    extends = λ after e. absurd (err-ne-ok e);
  }

  baseline_rows-Counts :
      (rows : List (Migration × Text)) (sequence : ℕ) (run : Uuid) (db : Database S)
      → Counts sequence run db (baseline_rows lib server w rows sequence run db)
  unfolding baseline_rows
  baseline_rows-Counts [] sequence run db = record {
    tried = 0;
    counted = omega arith;
    extends = λ after h.
        subst (λ es. Extends run sequence 0 0 db.events es) (sym (ok_events h))
          (Extends-keep db.events (omega arith));
  }
  baseline_rows-Counts ((m, d) ∷ rest) sequence run db =
      let row = with_state db (record_applied (w.each_row sequence) m d db.state) in
      let number = next_sequence sequence in
      let one : number % 2 ^ 32 ≡ (sequence + 1) % 2 ^ 32 =
        let e = next_sequence_lem sequence in omega arith in
      elim (Result-cases row) [
        | inl (x, failed) ↦
            rw (failed, baseline_rows) (Counts-err sequence sequence 0 run db x (omega arith))
        | inr (noted, added) ↦
            let e =
              event_of (codes "baseline") (codes "succeeded") m (as_str m.manifest.transaction)
                (d, structural_v1) none none none in
            elim (Result-cases (record_event (w.each_event sequence) run number e noted)) [
              | inl (x, failed) ↦
                  rw (added, failed, baseline_rows) (Counts-err sequence number 1 run db x one)
              | inr (done, wrote) ↦
                  let here =
                    subst (λ es. Extends run sequence 0 1 es done.events)
                      (with_state-events db noted _ added)
                      (record_event-Extends (w.each_event sequence) run sequence e noted done
                        wrote) in
                  let more = baseline_rows-Counts rest number run done in
                  rw (added, wrote, baseline_rows)
                    (record {
                      tried = 1 + more.tried;
                      counted = let p = more.counted in omega arith;
                      extends = λ after h. Extends-trans one here (more.extends after h);
                    })
            ]
      ]

  counted_run :
      {r : Runner S} {n tried : ℕ} {db : Database S}
      → n % 2 ^ 32 ≡ (r.sequence + tried) % 2 ^ 32
      → Extends r.run_id r.sequence 0 tried r.db.events db.events
      → IsGrown r (record r { sequence = n; db = db })
  counted_run {tried} h k = record { run = refl; tried = tried; counted = h; events = k }

  settle_counted :
      (ending : Commit) (r : Runner S) (p : ℕ × Result (Database S))
      → Counts r.sequence r.run_id r.db p
      → IsGrown r (settle ending (record r { sequence = p.0 }) p.1).0
  unfolding settle commit
  settle_counted ending r (n, err x) c =
      counted_run c.counted (Extends-keep r.db.events (omega arith))
  settle_counted committed r (n, ok db) c = counted_run c.counted (c.extends db refl)
  settle_counted refused r (n, ok db) c =
      counted_run c.counted (Extends-keep r.db.events (omega arith))
  settle_counted (lost true) r (n, ok db) c = counted_run c.counted (c.extends db refl)
  settle_counted (lost false) r (n, ok db) c =
      counted_run c.counted (Extends-keep r.db.events (omega arith))

  either-IsGrown :
      (b : Bool) (r : Runner S) (p q : Runner S × Result (Unit {0}))
      → IsGrown r p.0
      → IsGrown r q.0
      → IsGrown r (if b then p else q).0
  either-IsGrown true r p q hp hq = hp
  either-IsGrown false r p q hp hq = hq

  pub baseline-IsGrown :
      (ms : List Migration) (r : Runner S) → IsGrown r (baseline lib server w ms r).0
  unfolding baseline
  baseline-IsGrown ms r = elim (Result-cases (definitions_of lib server w ms)) [
    | inl (x, failed) ↦ rw (failed, baseline) (IsGrown-refl r)
    | inr (rows, hashed) ↦
        rw (hashed, baseline)
          (either-IsGrown w.begin r
            (settle w.commit
              (record r { sequence = (baseline_rows lib server w rows r.sequence r.run_id r.db).0 })
              (baseline_rows lib server w rows r.sequence r.run_id r.db).1)
            (r, err registry_failed)
            (settle_counted w.commit r (baseline_rows lib server w rows r.sequence r.run_id r.db)
              (baseline_rows-Counts rows r.sequence r.run_id r.db))
            (IsGrown-refl r))
  ]
