-- ===== src/Sql/Classify.antt =====
-- crates/zapadka-parser/src/classify.rs: the kind of a statement, read off its node of the tree.
use zapadka.Common.{
  Text, codes, text_eq, Bool, false, ◌||◌, List, [], ◌∷◌, Option, none, some, ◌==◌, map,
  if◌then◌else◌, any, find, drop, length, starts_with,
}
use zapadka.Sql.Values.{
  Value, Items, Fields, null, boolean, natural, below_zero, real, string, array, object, end, item,
  stop, field, member, flag, text_of, array_of, members, and_then, unwrap_or,
}
use zapadka.Sql.Statements.{
  TransactionOperation, begin, commit, rollback, savepoint, release_savepoint,
  rollback_to_savepoint, prepare_transaction, commit_prepared, rollback_prepared, set_transaction,
  set_session_characteristics, QualifiedName, DropObject, table, index, view, materialized_view,
  sequence, schema, column, other_object, ConstraintKind, primary_key, unique, foreign_key, check,
  not_null, exclusion, other_constraint, AlterTableAction, drop_column, add_column,
  alter_column_type, set_not_null, add_constraint, validate_constraint, other_action, StatementKind,
  transaction_control, create_index, create_table, alter_table, truncate, rename, vacuum,
  nontransactional, reindex, other,
}

-- `string(..).as_deref() == Some(..)`.
abbrev pub is_text : Option Text → Text → Bool
is_text none t = false
is_text (some s) t = text_eq s t

-- A `match` on a text, with its arms in order: the first arm that spells the text.
abbrev pub arm {ℓ} : {A : Type ℓ} → Text → List (Text × A) → A → A
arm t [] otherwise = otherwise
arm t ((s, a) ∷ arms) otherwise = if text_eq t s then a else arm t arms otherwise

abbrev pub operations : List (Text × TransactionOperation)
operations =
    (codes "TRANS_STMT_BEGIN", begin)
    ∷ (codes "TRANS_STMT_START", begin)
    ∷ (codes "TRANS_STMT_COMMIT", commit)
    ∷ (codes "TRANS_STMT_ROLLBACK", rollback)
    ∷ (codes "TRANS_STMT_SAVEPOINT", savepoint)
    ∷ (codes "TRANS_STMT_RELEASE", release_savepoint)
    ∷ (codes "TRANS_STMT_ROLLBACK_TO", rollback_to_savepoint)
    ∷ (codes "TRANS_STMT_PREPARE", prepare_transaction)
    ∷ (codes "TRANS_STMT_COMMIT_PREPARED", commit_prepared)
    ∷ (codes "TRANS_STMT_ROLLBACK_PREPARED", rollback_prepared)
    ∷ []

-- `transaction_operation`: a spelling that is not known counts as BEGIN.
unfoldable pub transaction_operation : Value → Option TransactionOperation
transaction_operation body =
    and_then (text_of body (codes "kind")) (λ spelling. some (arm spelling operations begin))

-- `contains_function_call`.
unfoldable mutual
  pub contains_function_call : Value → Bool
  contains_function_call (object fs) = field_calls fs
  contains_function_call (array vs) = item_calls vs
  contains_function_call null = false
  contains_function_call (boolean b) = false
  contains_function_call (natural n) = false
  contains_function_call (below_zero n) = false
  contains_function_call real = false
  contains_function_call (string t) = false

  pub item_calls : Items → Bool
  item_calls end = false
  item_calls (item v vs) = contains_function_call v || item_calls vs

  pub field_calls : Fields → Bool
  field_calls stop = false
  field_calls (field k v fs) =
      text_eq k (codes "FuncCall") || contains_function_call v || field_calls fs

-- `relation` and `cascade`.
unfoldable pub relation : Option Value → Option QualifiedName
relation value = and_then value (λ v.
    and_then (text_of v (codes "relname"))
      (λ name. some (record { schema = text_of v (codes "schemaname"); name = name })))

unfoldable pub cascade : Value → Bool
cascade v = is_text (text_of v (codes "behavior")) (codes "DROP_CASCADE")

-- `constraint_kind`.
unfoldable pub constraint_kind : Option Text → ConstraintKind
constraint_kind none = other_constraint []
constraint_kind (some contype) =
    arm contype
      ((codes "CONSTR_PRIMARY", primary_key)
        ∷ (codes "CONSTR_UNIQUE", unique)
        ∷ (codes "CONSTR_FOREIGN", foreign_key)
        ∷ (codes "CONSTR_CHECK", check)
        ∷ (codes "CONSTR_NOTNULL", not_null)
        ∷ (codes "CONSTR_EXCLUSION", exclusion)
        ∷ [])
      (other_constraint contype)

abbrev strip_prefix : Text → Text → Text
strip_prefix t prefix = if starts_with t prefix then drop (length prefix) t else t

abbrev spaced : Text → Text
spaced = map (λ c. if c == b'_' then b' ' else c)

-- `drop_object`; `str::to_lowercase` is a parameter.
unfoldable pub drop_object : (Text → Text) → Option Text → DropObject
drop_object to_lowercase none = other_object []
drop_object to_lowercase (some remove_type) =
    arm remove_type
      ((codes "OBJECT_TABLE", table)
        ∷ (codes "OBJECT_INDEX", index)
        ∷ (codes "OBJECT_VIEW", view)
        ∷ (codes "OBJECT_MATVIEW", materialized_view)
        ∷ (codes "OBJECT_SEQUENCE", sequence)
        ∷ (codes "OBJECT_SCHEMA", schema)
        ∷ (codes "OBJECT_COLUMN", column)
        ∷ [])
      (other_object (spaced (to_lowercase (strip_prefix remove_type (codes "OBJECT_")))))

abbrev contype_of : Value → Option Text
contype_of c = text_of c (codes "contype")

-- The `AT_AddColumn` arm of `alter_table_action`.
unfoldable pub added_column : Value → Text → AlterTableAction
added_column cmd name =
    let column_def = and_then (member cmd (codes "def")) (λ def. member def (codes "ColumnDef")) in
    let constraints : List Value = elim column_def [
      | none ↦ []
      | some c ↦ members (codes "Constraint") (array_of c (codes "constraints"))
    ] in
    let default = find (λ c. is_text (contype_of c) (codes "CONSTR_DEFAULT")) constraints in
    add_column (unwrap_or (and_then column_def (λ c. text_of c (codes "colname"))) name)
      (any (λ c. is_text (contype_of c) (codes "CONSTR_NOTNULL")) constraints)
      (elim (and_then default (λ d. member d (codes "raw_expr"))) [
        | none ↦ false
        | some expr ↦ contains_function_call expr
      ])

-- The `AT_AddConstraint` arm of `alter_table_action`.
unfoldable pub added_constraint : Value → AlterTableAction
added_constraint cmd =
    let constraint = and_then (member cmd (codes "def")) (λ def. member def (codes "Constraint")) in
    add_constraint (constraint_kind (and_then constraint contype_of))
      (elim constraint [ none ↦ false | some c ↦ flag c (codes "skip_validation") ])

-- `alter_table_action` and `alter_table_actions`.
unfoldable pub alter_table_action : Value → AlterTableAction
alter_table_action cmd =
    let subtype = unwrap_or (text_of cmd (codes "subtype")) [] in
    let name = unwrap_or (text_of cmd (codes "name")) [] in
    arm subtype
      ((codes "AT_DropColumn", drop_column name (cascade cmd))
        ∷ (codes "AT_AddColumn", added_column cmd name)
        ∷ (codes "AT_AlterColumnType", alter_column_type name)
        ∷ (codes "AT_SetNotNull", set_not_null name)
        ∷ (codes "AT_AddConstraint", added_constraint cmd)
        ∷ (codes "AT_ValidateConstraint", validate_constraint name)
        ∷ [])
      (other_action subtype)

unfoldable pub alter_table_actions : Value → List AlterTableAction
alter_table_actions body =
    map alter_table_action (members (codes "AlterTableCmd") (array_of body (codes "cmds")))

-- The `TransactionStmt` and the `VariableSetStmt` arms of `kind`.
unfoldable pub transaction_kind : Value → StatementKind
transaction_kind body = elim (transaction_operation body) [
  | some operation ↦ transaction_control operation
  | none ↦ other
]

unfoldable pub variable_kind : Option Text → StatementKind
variable_kind none = other
variable_kind (some name) =
    arm name
      ((codes "TRANSACTION", transaction_control set_transaction)
        ∷ (codes "SESSION CHARACTERISTICS", transaction_control set_session_characteristics)
        ∷ [])
      other

-- The arms of `kind`, by the type of the node.
unfoldable pub arms_of : (Text → Text) → Value → List (Text × StatementKind)
arms_of to_lowercase body =
    (codes "TransactionStmt", transaction_kind body)
    ∷ (codes "VariableSetStmt", variable_kind (text_of body (codes "name")))
    ∷ (
      codes "IndexStmt",
      create_index (relation (member body (codes "relation"))) (flag body (codes "concurrent"))
          (flag body (codes "unique")),
    )
    ∷ (codes "CreateStmt", create_table (relation (member body (codes "relation"))))
    ∷ (
      codes "AlterTableStmt",
      alter_table (relation (member body (codes "relation"))) (alter_table_actions body),
    )
    ∷ (
      codes "DropStmt",
      StatementKind.drop (drop_object to_lowercase (text_of body (codes "removeType")))
          (cascade body) (flag body (codes "concurrent")),
    )
    ∷ (codes "TruncateStmt", truncate (cascade body))
    ∷ (
      codes "RenameStmt",
      rename (drop_object to_lowercase (text_of body (codes "renameType")))
          (unwrap_or (text_of body (codes "newname")) []),
    )
    -- ANALYZE shares the node with VACUUM.
    ∷ (codes "VacuumStmt", if flag body (codes "is_vacuumcmd") then vacuum else other)
    ∷ (codes "CreatedbStmt", nontransactional (codes "CREATE DATABASE"))
    ∷ (codes "DropdbStmt", nontransactional (codes "DROP DATABASE"))
    ∷ (codes "CreateTableSpaceStmt", nontransactional (codes "CREATE TABLESPACE"))
    ∷ (codes "DropTableSpaceStmt", nontransactional (codes "DROP TABLESPACE"))
    ∷ (codes "AlterSystemStmt", nontransactional (codes "ALTER SYSTEM"))
    ∷ (codes "DiscardStmt", nontransactional (codes "DISCARD"))
    ∷ (
      codes "ReindexStmt",
      reindex (
          any (λ p. is_text (text_of p (codes "defname")) (codes "concurrently"))
            (members (codes "DefElem") (array_of body (codes "params")))),
    )
    ∷ []

-- `kind`.
unfoldable pub kind_of : (Text → Text) → Text → Value → StatementKind
kind_of to_lowercase node_type body = arm node_type (arms_of to_lowercase body) other
