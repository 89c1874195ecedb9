-- ===== src/Lint/Risks.antt =====
-- Every risk that a deploy script takes is reported, and a denied one fails the command.
use zapadka.Common.{
  ◌≡◌, Text, Bool, true, false, List, [], ◌∷◌, Option, none, some, ℕ, Member, first, later,
  Member-append, Member-grown,
}
use zapadka.Migration.{Migration, Script}
use zapadka.Sql.Statements.{
  Statement, StatementKind, AlterTableAction, QualifiedName, DropObject, ConstraintKind,
  is_data_bearing, scans_existing_rows, create_index, create_table, alter_table, truncate, rename,
  vacuum, nontransactional, reindex, other, transaction_control, drop_column, add_column,
  alter_column_type, set_not_null, add_constraint,
}
use zapadka.Errors.{Error}
use zapadka.Lint.{
  Findings, Policy, Diagnostic, destructive, table_rewrite, index_without_concurrently,
  constraint_scans_table, compatibility_window, push, push_error, push_when, warn, warn_by,
  alter_rule, warn_alter_table, warn_statement, warn_statements,
}

-- The risk that an action of ALTER TABLE takes, and that of a statement.
pub data ActionRisk : AlterTableAction → Text → Type 0 where
  drops_column : {name : Text} {cascade : Bool} → ActionRisk (drop_column name cascade) destructive
  changes_type : {name : Text} → ActionRisk (alter_column_type name) table_rewrite
  fills_column :
      {name : Text} {is_not_null : Bool}
      → ActionRisk (add_column name is_not_null true) table_rewrite
  requires_values : {name : Text} → ActionRisk (set_not_null name) constraint_scans_table
  scans_rows :
      {kind : ConstraintKind}
      → scans_existing_rows kind ≡ true
      → ActionRisk (add_constraint kind false) constraint_scans_table

pub data Risk : StatementKind → Text → Type 0 where
  drops_data :
      {object : DropObject} {cascade concurrent : Bool}
      → is_data_bearing object ≡ true
      → Risk (StatementKind.drop object cascade concurrent) destructive
  truncates : {cascade : Bool} → Risk (truncate cascade) destructive
  blocks_writes :
      {relation : Option QualifiedName} {is_unique : Bool}
      → Risk (create_index relation false is_unique) index_without_concurrently
  renames : {object : DropObject} {to : Text} → Risk (rename object to) compatibility_window
  alters :
      {relation : Option QualifiedName} {actions : List AlterTableAction}
      {action : AlterTableAction} {code : Text}
      → Member action actions
      → ActionRisk action code
      → Risk (alter_table relation actions) code

-- What is reported stays reported.
abbrev pub Keeps : Findings → Findings → Type 0
Keeps f g = (d : Diagnostic) → Member d f.diagnostics → Member d g.diagnostics

pub Keeps-push_error : (e : Error) (f : Findings) → Keeps f (push_error e f)
unfolding push_error
Keeps-push_error e f d h = h

pub Keeps-push : (n : Diagnostic) (f : Findings) → Keeps f (push n f)
unfolding push
Keeps-push n f d h = Member-append (n ∷ []) h

pub Keeps-push_when : (b : Bool) (e : Error) (f : Findings) → Keeps f (push_when b e f)
unfolding push_when
Keeps-push_when true e f d h = Keeps-push_error e f d h
Keeps-push_when false e f d h = h

push-reports : (n : Diagnostic) (f : Findings) → Member n (push n f).diagnostics
unfolding push
push-reports n f = Member-grown f.diagnostics n

module _ (policy : Policy) (m : Migration) (script : Script) where
  Keeps-warn_by :
      (rule : Option Text) (line : Option ℕ) (f : Findings)
      → Keeps f (warn_by policy m script rule line f)
  Keeps-warn_by none line f d h = h
  Keeps-warn_by (some code) line f d h = Keeps-push (warn policy m script code line) f d h

  Keeps-warn_alter_table :
      (actions : List AlterTableAction) (line : Option ℕ) (f : Findings)
      → Keeps f (warn_alter_table policy m script actions line f)
  unfolding warn_alter_table
  Keeps-warn_alter_table [] line f d h = h
  Keeps-warn_alter_table (action ∷ rest) line f d h =
      Keeps-warn_alter_table rest line (warn_by policy m script (alter_rule action) line f) d
        (Keeps-warn_by (alter_rule action) line f d h)

  Keeps-warn_statement :
      (kind : StatementKind) (line : Option ℕ) (f : Findings)
      → Keeps f (warn_statement policy m script kind line f)
  unfolding warn_statement
  Keeps-warn_statement (StatementKind.drop object cascade concurrent) line f d h =
      Keeps-warn_by _ line f d h
  Keeps-warn_statement (truncate cascade) line f d h = Keeps-push _ f d h
  Keeps-warn_statement (create_index relation concurrent is_unique) line f d h =
      Keeps-warn_by _ line f d h
  Keeps-warn_statement (rename object to) line f d h = Keeps-push _ f d h
  Keeps-warn_statement (alter_table relation actions) line f d h =
      Keeps-warn_alter_table actions line f d h
  Keeps-warn_statement (transaction_control operation) line f d h = h
  Keeps-warn_statement (create_table relation) line f d h = h
  Keeps-warn_statement vacuum line f d h = h
  Keeps-warn_statement (nontransactional construct) line f d h = h
  Keeps-warn_statement (reindex concurrent) line f d h = h
  Keeps-warn_statement other line f d h = h

  pub Keeps-warn_statements :
      (ss : List Statement) (f : Findings) → Keeps f (warn_statements policy m script ss f)
  unfolding warn_statements
  Keeps-warn_statements [] f d h = h
  Keeps-warn_statements (s ∷ ss) f d h =
      Keeps-warn_statements ss (warn_statement policy m script s.kind (some s.line) f) d
        (Keeps-warn_statement s.kind (some s.line) f d h)

  action-reports :
      (action : AlterTableAction) (code : Text) (line : Option ℕ) (f : Findings)
      → ActionRisk action code
      → Member
          (warn policy m script code line)
          (warn_by policy m script (alter_rule action) line f).diagnostics
  unfolding alter_rule
  action-reports action code line f drops_column = push-reports _ f
  action-reports action code line f changes_type = push-reports _ f
  action-reports action code line f fills_column = push-reports _ f
  action-reports action code line f requires_values = push-reports _ f
  action-reports action code line f (scans_rows h) = rw h (push-reports _ f)

  warn_alter_table-reports :
      (actions : List AlterTableAction) (action : AlterTableAction) (code : Text) (line : Option ℕ)
      (f : Findings)
      → Member action actions
      → ActionRisk action code
      → Member
          (warn policy m script code line)
          (warn_alter_table policy m script actions line f).diagnostics
  unfolding warn_alter_table
  warn_alter_table-reports [] action code line f h risk = elim h [ ]
  warn_alter_table-reports (action ∷ rest) _ code line f first risk =
      Keeps-warn_alter_table rest line (warn_by policy m script (alter_rule action) line f) _
        (action-reports action code line f risk)
  warn_alter_table-reports (x ∷ rest) action code line f (later h) risk =
      warn_alter_table-reports rest action code line (warn_by policy m script (alter_rule x) line f)
        h risk

  warn_statement-reports :
      (kind : StatementKind) (code : Text) (line : Option ℕ) (f : Findings)
      → Risk kind code
      → Member
          (warn policy m script code line)
          (warn_statement policy m script kind line f).diagnostics
  unfolding warn_statement
  warn_statement-reports kind code line f (drops_data h) = rw h (push-reports _ f)
  warn_statement-reports kind code line f truncates = push-reports _ f
  warn_statement-reports kind code line f blocks_writes = push-reports _ f
  warn_statement-reports kind code line f renames = push-reports _ f
  warn_statement-reports kind code line f (alters {actions} {action} h risk) =
      warn_alter_table-reports actions action code line f h risk

  pub warn_statements-reports :
      (ss : List Statement) (s : Statement) (code : Text) (f : Findings)
      → Member s ss
      → Risk s.kind code
      → Member
          (warn policy m script code (some s.line))
          (warn_statements policy m script ss f).diagnostics
  unfolding warn_statements
  warn_statements-reports [] s code f h risk = elim h [ ]
  warn_statements-reports (s ∷ ss) _ code f first risk =
      Keeps-warn_statements ss (warn_statement policy m script s.kind (some s.line) f) _
        (warn_statement-reports s.kind code (some s.line) f risk)
  warn_statements-reports (t ∷ ss) s code f (later h) risk =
      warn_statements-reports ss s code (warn_statement policy m script t.kind (some t.line) f) h
        risk
