-- ===== src/Rehash/Examples.antt =====
-- A registry with one migration under its original definition, and the theorem at it.
use zapadka.Common.{◌≡◌, true, false, [], ◌∷◌, some, none, codes, arith}
use zapadka.Manifest.{Uuid, definition_sha256}
use zapadka.Manifest.Examples.{library}
use zapadka.Graph.Examples.{migration, built}
use zapadka.Registry.{AppliedMigration, applied_row, raw_v1}
use zapadka.Server.{committed}
use zapadka.Rehash.{Ledger, Grants, rehash}
use zapadka.Rehash.Conversion.{row_at}
use zapadka.Rehash.Atomic.{IsRehashed, rehash_lem}

abbrev original : AppliedMigration
original =
    record (applied_row (migration 1 [])
      (definition_sha256 library (migration 1 []).manifest (codes "SELECT 1"))) {
        definition_algorithm = raw_v1;
      }

abbrev ledger : Ledger
ledger = record {
  state = record {
    format_version = some 2;
    project_id = some 1;
    applied = (1, original) ∷ [];
    unresolved = [];
  };
  audits = [];
}

abbrev granted : Grants
granted = record { begin = true; upgrade = true; update = λ id. true; audit = λ id. true }

keyed : (k : Uuid) (row : AppliedMigration) → row_at ledger k ≡ some row → row.id ≡ k
keyed k row h = ground arith

rehash_lem_example :
    IsRehashed library built false ledger committed
      (rehash library built granted committed false none ledger)
rehash_lem_example = rehash_lem library built false ledger granted committed none keyed
