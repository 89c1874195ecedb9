-- ===== src/Sql/Statements.antt =====
-- crates/zapadka-parser/src/classify.rs: the vocabulary of statements and what is asked of them.
use zapadka.Common.{ℕ, Text, codes, text_eq, Bool, true, false, List, ◌++◌, Option, none, some}

pub data TransactionOperation : Type 0 where
  begin commit rollback savepoint release_savepoint rollback_to_savepoint : TransactionOperation
  prepare_transaction commit_prepared rollback_prepared : TransactionOperation
  set_transaction set_session_characteristics : TransactionOperation

pub record QualifiedName : Type 0 where
  pub schema : Option Text
  pub name : Text

pub data DropObject : Type 0 where
  table index view materialized_view sequence schema column : DropObject
  other_object : Text → DropObject

pub data ConstraintKind : Type 0 where
  primary_key unique foreign_key check not_null exclusion : ConstraintKind
  other_constraint : Text → ConstraintKind

pub data AlterTableAction : Type 0 where
  -- The column and whether the drop cascades.
  drop_column : Text → Bool → AlterTableAction
  -- The column, whether it is NOT NULL, and whether its default calls a function.
  add_column : Text → Bool → Bool → AlterTableAction
  alter_column_type : Text → AlterTableAction
  set_not_null : Text → AlterTableAction
  -- The kind and whether it is NOT VALID.
  add_constraint : ConstraintKind → Bool → AlterTableAction
  validate_constraint : Text → AlterTableAction
  other_action : Text → AlterTableAction

pub data StatementKind : Type 0 where
  transaction_control : TransactionOperation → StatementKind
  -- The relation, whether it is built CONCURRENTLY, and whether it is unique.
  create_index : Option QualifiedName → Bool → Bool → StatementKind
  create_table : Option QualifiedName → StatementKind
  alter_table : Option QualifiedName → List AlterTableAction → StatementKind
  -- The object, whether the drop cascades, and whether it is CONCURRENTLY.
  drop : DropObject → Bool → Bool → StatementKind
  truncate : Bool → StatementKind
  rename : DropObject → Text → StatementKind
  vacuum : StatementKind
  nontransactional : Text → StatementKind
  reindex : Bool → StatementKind
  other : StatementKind

pub record Statement : Type 0 where
  pub node_type : Text
  pub kind : StatementKind
  pub location : ℕ
  pub length : Option ℕ
  pub line : ℕ

-- `TransactionOperation::keyword`.
unfoldable pub keyword : TransactionOperation → Text
keyword begin = codes "BEGIN"
keyword commit = codes "COMMIT"
keyword rollback = codes "ROLLBACK"
keyword savepoint = codes "SAVEPOINT"
keyword release_savepoint = codes "RELEASE SAVEPOINT"
keyword rollback_to_savepoint = codes "ROLLBACK TO SAVEPOINT"
keyword prepare_transaction = codes "PREPARE TRANSACTION"
keyword commit_prepared = codes "COMMIT PREPARED"
keyword rollback_prepared = codes "ROLLBACK PREPARED"
keyword set_transaction = codes "SET TRANSACTION"
keyword set_session_characteristics = codes "SET SESSION CHARACTERISTICS"

-- `StatementKind::is_transaction_control`.
unfoldable pub is_transaction_control : StatementKind → Bool
is_transaction_control (transaction_control operation) = true
is_transaction_control (create_index relation concurrent is_unique) = false
is_transaction_control (create_table relation) = false
is_transaction_control (alter_table relation actions) = false
is_transaction_control (drop object cascade concurrent) = false
is_transaction_control (truncate cascade) = false
is_transaction_control (rename object to) = false
is_transaction_control vacuum = false
is_transaction_control (nontransactional construct) = false
is_transaction_control (reindex concurrent) = false
is_transaction_control other = false

abbrev when : Bool → Text → Option Text
when true t = some t
when false t = none

-- `StatementKind::forbidden_in_transaction`.
unfoldable pub forbidden_in_transaction : StatementKind → Option Text
forbidden_in_transaction (create_index relation concurrent is_unique) =
    when concurrent (codes "CREATE INDEX CONCURRENTLY")
forbidden_in_transaction (drop index cascade concurrent) =
    when concurrent (codes "DROP INDEX CONCURRENTLY")
forbidden_in_transaction (drop table cascade concurrent) = none
forbidden_in_transaction (drop view cascade concurrent) = none
forbidden_in_transaction (drop materialized_view cascade concurrent) = none
forbidden_in_transaction (drop sequence cascade concurrent) = none
forbidden_in_transaction (drop schema cascade concurrent) = none
forbidden_in_transaction (drop column cascade concurrent) = none
forbidden_in_transaction (drop (other_object name) cascade concurrent) = none
forbidden_in_transaction (reindex concurrent) = when concurrent (codes "REINDEX CONCURRENTLY")
forbidden_in_transaction vacuum = some (codes "VACUUM")
forbidden_in_transaction (nontransactional construct) = some construct
forbidden_in_transaction (transaction_control operation) = none
forbidden_in_transaction (create_table relation) = none
forbidden_in_transaction (alter_table relation actions) = none
forbidden_in_transaction (truncate cascade) = none
forbidden_in_transaction (rename object to) = none
forbidden_in_transaction other = none

-- `StatementKind::breaks_runner_session`.
unfoldable pub breaks_runner_session : StatementKind → Option Text
breaks_runner_session (nontransactional construct) =
    when (text_eq construct (codes "DISCARD")) construct
breaks_runner_session (create_index relation concurrent is_unique) = none
breaks_runner_session (drop object cascade concurrent) = none
breaks_runner_session (reindex concurrent) = none
breaks_runner_session vacuum = none
breaks_runner_session (transaction_control operation) = none
breaks_runner_session (create_table relation) = none
breaks_runner_session (alter_table relation actions) = none
breaks_runner_session (truncate cascade) = none
breaks_runner_session (rename object to) = none
breaks_runner_session other = none

-- `QualifiedName::fmt`.
unfoldable pub name_text : QualifiedName → Text
name_text q = elim q.schema [ none ↦ q.name | some s ↦ s ++ (codes "." ++ q.name) ]

-- `DropObject::is_data_bearing` and `DropObject::label`.
unfoldable pub is_data_bearing : DropObject → Bool
is_data_bearing table = true
is_data_bearing materialized_view = true
is_data_bearing sequence = true
is_data_bearing schema = true
is_data_bearing column = true
is_data_bearing index = false
is_data_bearing view = false
is_data_bearing (other_object name) = false

unfoldable pub object_label : DropObject → Text
object_label table = codes "table"
object_label index = codes "index"
object_label view = codes "view"
object_label materialized_view = codes "materialized view"
object_label sequence = codes "sequence"
object_label schema = codes "schema"
object_label column = codes "column"
object_label (other_object name) = name

-- `ConstraintKind::label` and `ConstraintKind::scans_existing_rows`.
unfoldable pub constraint_label : ConstraintKind → Text
constraint_label primary_key = codes "primary key"
constraint_label unique = codes "unique"
constraint_label foreign_key = codes "foreign key"
constraint_label check = codes "check"
constraint_label not_null = codes "not null"
constraint_label exclusion = codes "exclusion"
constraint_label (other_constraint name) = name

unfoldable pub scans_existing_rows : ConstraintKind → Bool
scans_existing_rows primary_key = true
scans_existing_rows unique = true
scans_existing_rows foreign_key = true
scans_existing_rows check = true
scans_existing_rows exclusion = true
scans_existing_rows not_null = false
scans_existing_rows (other_constraint name) = false
