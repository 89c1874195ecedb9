-- ===== src/Runner/Numbering.antt =====
-- The events of a run are numbered in the order they are written, and none is lost or rewritten.
use mathlib.Core.Path.{subst}
use zapadka.Common.{
  ℕ, ◌+◌, ◌%◌, ◌^◌, ◌≤◌, ◌<◌, ◌≡◌, refl, sym, ap, ◌∙◌, Bool, true, false, List, [], ◌∷◌, ◌++◌,
  append-nil, append_assoc, arith, not, any,
}
use zapadka.Errors.{Error, Result, ok, err, >>=-eq-ok, ◌>>◌, ◌>>=◌}
use zapadka.Manifest.{Uuid, guard}
use zapadka.Registry.{RegistryState, registry_failed}
use zapadka.Server.{
  Commit, committed, refused, lost, Event, Database, Runner, next_sequence, record_event,
  record_late, settle, commit, close, after_failure, with_state, same_key,
}

-- The events of one run that were written among the tries behind the first bound and up to the
-- second: the try `n` has the number `start` plus `n`, which wraps around at 2 ^ 32.
pub data IsNumbered (run : Uuid) (start : ℕ) : ℕ → ℕ → List Event → Type 0 where
  done : {lo hi : ℕ} → lo ≤ hi → IsNumbered run start lo hi []
  onward :
      {lo hi n : ℕ} {e : Event} {es : List Event}
      → e.run_id ≡ run
      → lo < n
      → e.sequence ≡ (start + n) % 2 ^ 32
      → IsNumbered run start n hi es
      → IsNumbered run start lo hi (e ∷ es)

IsNumbered-append :
    {run : Uuid} {start lo mid hi : ℕ} {xs ys : List Event}
    → IsNumbered run start lo mid xs
    → IsNumbered run start mid hi ys
    → IsNumbered run start lo hi (xs ++ ys)
IsNumbered-append (done h) (done k) = done (omega arith)
IsNumbered-append (done h) (onward same above is rest) = onward same (omega arith) is rest
IsNumbered-append (onward same above is rest) more =
    onward same above is (IsNumbered-append rest more)

-- What was counted from a later number is counted from the first one.
IsNumbered-shift :
    (tried : ℕ) {run : Uuid} {start late lo hi : ℕ} {es : List Event}
    → late % 2 ^ 32 ≡ (start + tried) % 2 ^ 32
    → IsNumbered run late lo hi es
    → IsNumbered run start (tried + lo) (tried + hi) es
IsNumbered-shift tried h (done k) = done (omega arith)
IsNumbered-shift tried h (onward {n} same above is rest) =
    onward {n = tried + n} same (omega arith) (omega arith) (IsNumbered-shift tried h rest)

-- The table is the one before with new events behind it, from the tries that the bounds allow.
pub record Extends (run : Uuid) (start lo hi : ℕ) (before after : List Event) : Type 0 where
  pub extra : List Event
  pub appended : after ≡ before ++ extra
  pub numbered : IsNumbered run start lo hi extra

pub Extends-keep :
    {run : Uuid} {start lo hi : ℕ} (es : List Event) → lo ≤ hi → Extends run start lo hi es es
Extends-keep es h = record { extra = []; appended = sym (append-nil es); numbered = done h }

-- From `tried` tries to `more` further ones, which are counted from the number reached.
pub Extends-trans :
    {run : Uuid} {start late tried more : ℕ} {a b c : List Event}
    → late % 2 ^ 32 ≡ (start + tried) % 2 ^ 32
    → Extends run start 0 tried a b
    → Extends run late 0 more b c
    → Extends run start 0 (tried + more) a c
Extends-trans {run} {start} {tried} {more} {a} h x y = record {
  extra = x.extra ++ y.extra;
  appended =
      y.appended
      ∙ (ap (λ (es : List Event). es ++ y.extra) x.appended ∙ append_assoc a x.extra y.extra);
  numbered = IsNumbered-append x.numbered (
      subst (λ lo. IsNumbered run start lo (tried + more) y.extra)
        (let e : tried + 0 ≡ tried = omega arith in e) (IsNumbered-shift tried h y.numbered));
}

pub next_sequence_lem : (n : ℕ) → next_sequence n ≡ (n + 1) % 2 ^ 32
unfolding next_sequence
next_sequence_lem n = refl

module _ {ℓ} {S : Type ℓ} where
  -- A runner keeps its run; its number went up by one for each event that was tried, wrapping
  -- around at 2 ^ 32, and the events that were written stand behind those before.
  pub record IsGrown (r after : Runner S) : Type 0 where
    pub run : after.run_id ≡ r.run_id
    pub tried : ℕ
    pub counted : after.sequence % 2 ^ 32 ≡ (r.sequence + tried) % 2 ^ 32
    pub events : Extends r.run_id r.sequence 0 tried r.db.events after.db.events

  pub IsGrown-refl : (r : Runner S) → IsGrown r r
  IsGrown-refl r = record {
    run = refl;
    tried = 0;
    counted = omega arith;
    events = Extends-keep r.db.events (omega arith);
  }

  pub IsGrown-trans : (a b c : Runner S) → IsGrown a b → IsGrown b c → IsGrown a c
  IsGrown-trans a b c x y = record {
    run = y.run ∙ x.run;
    tried = x.tried + y.tried;
    counted = let p = x.counted in let q = y.counted in omega arith;
    events =
        Extends-trans x.counted x.events
          (subst (λ run. Extends run b.sequence 0 y.tried b.db.events c.db.events) x.run y.events);
  }

  pub record_event-Extends :
      (granted : Bool) (run : Uuid) (sequence : ℕ) (e : Event) (db logged : Database S)
      → record_event granted run (next_sequence sequence) e db ≡ ok logged
      → Extends run sequence 0 1 db.events logged.events
  unfolding record_event
  record_event-Extends granted run sequence e db logged h =
      let number = next_sequence sequence in
      let (_, _, written) =
        >>=-eq-ok
          (guard granted registry_failed
            >> guard (not (any (same_key run number) db.events)) registry_failed)
          _ h in
      let new_event = record e { run_id = run; sequence = number } in
      let same : (record db { events = db.events ++ new_event ∷ [] }) ≡ logged = ground arith in
      record {
        extra = record e { run_id = run; sequence = number } ∷ [];
        appended = ap (λ (d : Database S). d.events) (sym same);
        numbered =
            onward {n = 1} refl (omega arith) (next_sequence_lem sequence) (done (omega arith));
      }

  one_more :
      {r : Runner S} {db : Database S}
      → Extends r.run_id r.sequence 0 1 r.db.events db.events
      → IsGrown r (record r { sequence = next_sequence r.sequence; db = db })
  one_more {r} h = record {
    run = refl;
    tried = 1;
    counted = let e = next_sequence_lem r.sequence in omega arith;
    events = h;
  }

  -- The end of a transaction whose copy extends the events by at most one.
  settle-IsGrown :
      (ending : Commit) (r : Runner S) (outcome : Result (Database S))
      → ((db : Database S)
          → outcome ≡ ok db
          → Extends r.run_id r.sequence 0 1 r.db.events db.events)
      → IsGrown r (settle ending (record r { sequence = next_sequence r.sequence }) outcome).0
  unfolding settle commit
  settle-IsGrown ending r (err x) h = one_more (Extends-keep r.db.events (omega arith))
  settle-IsGrown committed r (ok db) h = one_more (h db refl)
  settle-IsGrown refused r (ok db) h = one_more (Extends-keep r.db.events (omega arith))
  settle-IsGrown (lost true) r (ok db) h = one_more (h db refl)
  settle-IsGrown (lost false) r (ok db) h = one_more (Extends-keep r.db.events (omega arith))

  pub record_late-IsGrown :
      (ending : Commit) (e : Event) (r : Runner S) → IsGrown r (record_late ending e r).0
  unfolding record_late
  record_late-IsGrown ending e r =
      settle-IsGrown ending r _ (λ db h. record_event-Extends true r.run_id r.sequence e r.db db h)

  pub close-IsGrown :
      (granted : Bool) (ending : Commit) (e : Event) (last : Database S → Result (Database S))
      (staged : Result (Database S)) (r : Runner S)
      → ((copy : Database S) → staged ≡ ok copy → copy.events ≡ r.db.events)
      → ((logged db : Database S) → last logged ≡ ok db → db.events ≡ logged.events)
      → IsGrown r (close granted ending e last staged r).0
  unfolding close
  close-IsGrown granted ending e last (err x) r hs hl = IsGrown-refl r
  close-IsGrown granted ending e last (ok copy) r hs hl =
      settle-IsGrown ending r
        (record_event granted r.run_id (next_sequence r.sequence) e copy >>= last)
        (λ db h.
          let (logged, wrote, rest) =
            >>=-eq-ok (record_event granted r.run_id (next_sequence r.sequence) e copy) last h in
          let x = record_event-Extends granted r.run_id r.sequence e copy logged wrote in
          subst (λ es. Extends r.run_id r.sequence 0 1 es db.events) (hs copy refl)
            (subst (λ es. Extends r.run_id r.sequence 0 1 copy.events es) (sym (hl logged db rest))
              x))

  pub after_failure-IsGrown :
      (ending : Commit) (event_for : Error → Event) (r : Runner S)
      (after : Runner S × Result (Unit {0}))
      → IsGrown r after.0
      → IsGrown r (after_failure ending event_for after).0
  unfolding after_failure
  after_failure-IsGrown ending event_for r (a, ok finished) h = h
  after_failure-IsGrown ending event_for r (a, err x) h =
      IsGrown-trans r a _ h (record_late-IsGrown ending (event_for x) a)

  -- A statement of the registry, and a script, leave the events alone.
  pub with_state-events :
      (db after : Database S) (changed : Result RegistryState)
      → with_state db changed ≡ ok after
      → after.events ≡ db.events
  with_state-events db after (err x) h = absurd cc
  with_state-events db after (ok state) h =
      ap (λ (d : Database S). d.events)
        (let e : (record db { state = state }) ≡ after = ground arith in sym e)
