-- ===== src/Server.antt =====
-- What the runner of crates/zapadka-pg/src/execute.rs asks of the database, and what it is answered.
-- The server is a parameter (`Server`): what a script does to the user's schema. What it answers to each call of one operation is the operation's `Wire`, so a
-- theorem for every `Wire` covers every place at which a call can be refused or a connection lost.
-- Each turn of a loop has answers of its own, by the number that the runner has before the turn.
-- A transaction works on a copy of the database, which a commit puts in the place of the old one;
-- dropping the transaction drops the copy. Scripts change the user's schema only: the registry's
-- tables are changed by the registry's statements. Durations and server messages are left out.
use zapadka.Common.{
  ℕ, ◌+◌, ◌%◌, ◌^◌, Text, Bool, true, not, ◌&&◌, List, [], ◌∷◌, ◌++◌, Option, none, some, ◌==◌,
  if◌then◌else◌, any,
}
use zapadka.Errors.{
  Error, Result, ok, err, new, at, file, ◌>>=◌, ◌>>◌, deploy_failed, revert_failed, verify_failed,
}
use zapadka.Manifest.{Uuid, guard}
use zapadka.Migration.{Migration, ScriptRole, deploy, revert, verify}
use zapadka.Registry.{RegistryState, registry_failed}

pub record Server {ℓ} (S : Type ℓ) : Type ℓ where
  -- A script inside a transaction: `none` when the server reports an error.
  pub run_script : Text → S → Option S
  -- A statement in autocommit: what it leaves behind, and whether the server reports success.
  pub run_alone : Text → S → S × Bool

-- How a commit ends. A lost connection tells nothing, and the commit may have been done.
pub data Commit : Type 0 where
  committed refused : Commit
  lost : Bool → Commit

-- How a statement outside a transaction ends; `dropped` says whether the server ran it all the same.
pub data Reply : Type 0 where
  answered : Reply
  dropped : Bool → Reply

-- What the server answers to the calls of one operation, `true` where it grants a call.
pub record Wire : Type 0 where
  pub begin : Bool
  pub timeouts : Bool
  pub row : Bool
  pub cleared : Bool
  pub event : Bool
  -- The row and the event of each turn of `Runner::baseline`.
  pub each_row : ℕ → Bool
  pub each_event : ℕ → Bool
  pub commit : Commit
  -- An event outside a transaction, which is its own commit.
  pub late_event : Commit
  pub attempt : Bool
  pub attempt_event : Bool
  pub attempt_commit : Commit
  pub finish : Bool
  pub statement : Reply

-- One row of history. Its primary key is the run and the sequence number.
pub record Event : Type 0 where
  pub run_id : Uuid
  pub sequence : ℕ
  pub migration_id : Option Uuid
  pub action : Text
  pub outcome : Text
  pub transaction_mode : Option Text
  pub definition_sha256 : Option Text
  pub definition_algorithm : Option Text
  pub script_role : Option ScriptRole
  pub script_sha256 : Option Text
  pub error : Option Error

pub record Database {ℓ} (S : Type ℓ) : Type ℓ where
  pub schema : S
  pub state : RegistryState
  pub events : List Event

pub record Runner {ℓ} (S : Type ℓ) : Type ℓ where
  pub run_id : Uuid
  pub sequence : ℕ
  pub db : Database S

-- An event of the runner's run, before its number is known.
abbrev pub event_of :
    Text
    → Text
    → Migration
    → Text
    → Text × Text
    → Option ScriptRole
    → Option Text
    → Option Error
    → Event
event_of action outcome m mode (definition, algorithm) role sha256 e = record {
  run_id = 0;
  sequence = 0;
  migration_id = some m.id;
  action = action;
  outcome = outcome;
  transaction_mode = some mode;
  definition_sha256 = some definition;
  definition_algorithm = some algorithm;
  script_role = role;
  script_sha256 = sha256;
  error = e;
}

-- `script_failed`.
abbrev pub script_failed : ScriptRole → Text → Error
script_failed deploy path = at (file path) (new deploy_failed)
script_failed revert path = at (file path) (new revert_failed)
script_failed verify path = at (file path) (new verify_failed)

module _ {ℓ} {S : Type ℓ} (server : Server S) where
  -- `batch_execute` of a script inside a transaction.
  unfoldable pub execute : Text → Error → Database S → Result (Database S)
  execute sql failure db = elim (server.run_script sql db.schema) [
    | none ↦ err failure
    | some changed ↦ ok (record db { schema = changed })
  ]

-- `self.sequence += 1`: an i32, as its bit pattern, wraps around.
unfoldable pub next_sequence : ℕ → ℕ
next_sequence n = (n + 1) % 2 ^ 32

abbrev pub same_key : Uuid → ℕ → Event → Bool
same_key run_id sequence e = e.run_id == run_id && e.sequence == sequence

module _ {ℓ} {S : Type ℓ} where
  -- A statement of the registry, on the tables of a database.
  abbrev pub with_state : Database S → Result RegistryState → Result (Database S)
  with_state db changed = elim changed [
    | err e ↦ err e
    | ok state ↦ ok (record db { state = state })
  ]

  -- `record_event`: an INSERT into `events`.
  unfoldable pub record_event : Bool → Uuid → ℕ → Event → Database S → Result (Database S)
  record_event granted run_id sequence e db =
      guard granted registry_failed
      >> guard (not (any (same_key run_id sequence) db.events)) registry_failed
      >> ok (record db {
        events = db.events ++ record e { run_id = run_id; sequence = sequence } ∷ [];
      })

  -- `transaction.commit()`.
  unfoldable pub commit : Commit → Database S → Runner S → Runner S × Result (Unit {0})
  commit committed db r = (record r { db = db }, ok tt)
  commit refused db r = (r, err registry_failed)
  commit (lost kept) db r = (record r { db = if kept then db else r.db }, err registry_failed)

  -- What becomes of the runner when the transaction's copy is committed, or was dropped.
  unfoldable pub settle : Commit → Runner S → Result (Database S) → Runner S × Result (Unit {0})
  settle ending r (err failure) = (r, err failure)
  settle ending r (ok db) = commit ending db r

  -- `Runner::record`: an event on the runner's own connection. Its callers drop the result.
  unfoldable pub record_late : Commit → Event → Runner S → Runner S × Result (Unit {0})
  record_late ending e r =
      settle ending (record r { sequence = next_sequence r.sequence })
        (record_event true r.run_id (next_sequence r.sequence) e r.db)

  -- The end that the transactions share: the event, what follows it, and the commit. `staged` is
  -- the copy that the transaction worked on, or the failure that dropped it.
  unfoldable pub close :
      Bool
      → Commit
      → Event
      → (Database S → Result (Database S))
      → Result (Database S)
      → Runner S
      → Runner S × Result (Unit {0})
  close granted ending e last (err failure) r = (r, err failure)
  close granted ending e last (ok staged) r =
      settle ending (record r { sequence = next_sequence r.sequence })
        (record_event granted r.run_id (next_sequence r.sequence) e staged >>= last)

  -- A failure is recorded by an event of its own, and is still what is returned.
  unfoldable pub after_failure :
      Commit → (Error → Event) → Runner S × Result (Unit {0}) → Runner S × Result (Unit {0})
  after_failure ending event_for (r, ok done) = (r, ok done)
  after_failure ending event_for (r, err e) = ((record_late ending (event_for e) r).0, err e)
