-- ===== src/Lint/Modes.antt =====
-- When the checks of a script's statements find no error.
use zapadka.Common.{
  ◌≡◌, refl, ◌∙◌, Text, Bool, false, not, ◌&&◌, ◌||◌, List, [], ◌∷◌, ◌++◌, Option, none, some, any,
  retain, is_some, is_empty, arith, Option-cases, inl, inr, ℕ,
}
use zapadka.Errors.{Error, new, at, position, script_transaction_control, script_statement_count}
use zapadka.Manifest.{Transaction, required, forbidden}
use zapadka.Migration.{Migration, Script}
use zapadka.Sql.Statements.{
  Statement, StatementKind, AlterTableAction, is_transaction_control, forbidden_in_transaction,
  breaks_runner_session, transaction_control, create_index, create_table, alter_table, truncate,
  rename, vacuum, nontransactional, reindex, other,
}
use zapadka.Lint.{
  Findings, Policy, Diagnostic, push_error, push, push_when, check_transaction_control,
  check_required, check_forbidden, check_execution_mode, collect_warnings, warn_statements,
  warn_statement, warn_alter_table, warn_by, alter_rule, warn,
}

abbrev pub is_clean : Findings → Bool
is_clean f = is_empty f.errors

is_empty-grown {ℓ} : {A : Type ℓ} (xs : List A) (x : A) → is_empty (xs ++ x ∷ []) ≡ false
is_empty-grown [] x = refl
is_empty-grown (y ∷ xs) x = refl

pub push_error-clean : (e : Error) (f : Findings) → is_clean (push_error e f) ≡ false
unfolding push_error
push_error-clean e f = is_empty-grown f.errors e

pub push-clean : (d : Diagnostic) (f : Findings) → is_clean (push d f) ≡ is_clean f
unfolding push
push-clean d f = refl

pub push_when-clean :
    (b : Bool) (e : Error) (f : Findings) → is_clean (push_when b e f) ≡ (is_clean f && not b)
unfolding push_when
push_when-clean b e f = ground (arith, push_error-clean e f)

abbrev pub controlled : Statement → Bool
controlled s = is_transaction_control s.kind

abbrev pub refused : Statement → Bool
refused s = is_some (forbidden_in_transaction s.kind)

abbrev pub deadly : Statement → Bool
deadly s = is_some (breaks_runner_session s.kind)

-- The statements that may run in each mode: in a transaction, none that controls it and none that
-- PostgreSQL refuses there; without one, a single statement that PostgreSQL refuses in a
-- transaction and that keeps the session's lock.
abbrev pub suits : Transaction → List Statement → Bool
suits required ss = not (any (λ (s : Statement). controlled s || refused s) ss)
suits forbidden [] = false
suits forbidden (s ∷ []) = not (controlled s) && (refused s && not (deadly s))
suits forbidden (s ∷ t ∷ ss) = false

-- Which of them the mode's own check passes.
abbrev pub runs_in : Transaction → List Statement → Bool
runs_in required ss = not (any refused ss)
runs_in forbidden [] = false
runs_in forbidden (s ∷ []) = refused s && not (deadly s)
runs_in forbidden (s ∷ t ∷ ss) = false

pub suits-runs_in :
    (mode : Transaction) (ss : List Statement)
    → suits mode ss ≡ (is_empty (retain controlled ss) && runs_in mode ss)
suits-runs_in required [] = refl
suits-runs_in required (s ∷ ss) = ground (arith, suits-runs_in required ss)
suits-runs_in forbidden [] = refl
suits-runs_in forbidden (s ∷ []) = ground arith
suits-runs_in forbidden (s ∷ t ∷ ss) = ground arith

check_transaction_control-clean :
    (script : Script) (ss : List Statement) (f : Findings)
    → is_clean (check_transaction_control script ss f) ≡ (is_clean f && is_empty ss)
unfolding check_transaction_control
check_transaction_control-clean script [] f = ground arith
check_transaction_control-clean script (s ∷ ss) f =
    let e = at (position script.relative_path s.line 1) (new script_transaction_control) in
    ground (arith, check_transaction_control-clean script ss (push_error e f), push_error-clean e f)

check_required-clean :
    (script : Script) (ss : List Statement) (f : Findings)
    → is_clean (check_required script ss f) ≡ (is_clean f && not (any refused ss))
unfolding check_required
check_required-clean script [] f = ground arith
check_required-clean script (s ∷ ss) f = elim (Option-cases (forbidden_in_transaction s.kind)) [
  | inl free ↦ ground (arith, check_required-clean script ss f)
  | inr (construct, bound) ↦
      let e = at (position script.relative_path s.line 1) (new script_statement_count) in
      ground (arith, check_required-clean script ss (push_error e f), push_error-clean e f)
]

check_forbidden-clean :
    (script : Script) (ss : List Statement) (f : Findings)
    → is_clean (check_forbidden script ss f) ≡ (is_clean f && runs_in forbidden ss)
unfolding check_forbidden
check_forbidden-clean script [] f =
    rw (push_when-clean, push_when-clean, push_when-clean) (ground arith)
check_forbidden-clean script (s ∷ []) f =
    rw (push_when-clean, push_when-clean, push_when-clean) (ground arith)
check_forbidden-clean script (s ∷ t ∷ ss) f =
    rw (push_when-clean, push_when-clean, push_when-clean) (ground arith)

pub check_execution_mode-clean :
    (mode : Transaction) (script : Script) (ss : List Statement) (f : Findings)
    → is_clean (
        check_execution_mode mode script ss
          (check_transaction_control script (retain controlled ss) f))
      ≡ (is_clean f && suits mode ss)
unfolding check_execution_mode
check_execution_mode-clean required script ss f = ground (
  arith,
  suits-runs_in required ss,
  check_required-clean script ss (check_transaction_control script (retain controlled ss) f),
  check_transaction_control-clean script (retain controlled ss) f,
)
check_execution_mode-clean forbidden script ss f = ground (
  arith,
  suits-runs_in forbidden ss,
  check_forbidden-clean script ss (check_transaction_control script (retain controlled ss) f),
  check_transaction_control-clean script (retain controlled ss) f,
)

-- Diagnostics are no errors.
module _ (policy : Policy) (m : Migration) (script : Script) where
  warn_by-clean :
      (rule : Option Text) (line : Option ℕ) (f : Findings)
      → is_clean (warn_by policy m script rule line f) ≡ is_clean f
  warn_by-clean none line f = refl
  warn_by-clean (some code) line f = push-clean (warn policy m script code line) f

  warn_alter_table-clean :
      (actions : List AlterTableAction) (line : Option ℕ) (f : Findings)
      → is_clean (warn_alter_table policy m script actions line f) ≡ is_clean f
  unfolding warn_alter_table
  warn_alter_table-clean [] line f = refl
  warn_alter_table-clean (action ∷ rest) line f =
      warn_alter_table-clean rest line (warn_by policy m script (alter_rule action) line f)
      ∙ warn_by-clean (alter_rule action) line f

  warn_statement-clean :
      (kind : StatementKind) (line : Option ℕ) (f : Findings)
      → is_clean (warn_statement policy m script kind line f) ≡ is_clean f
  unfolding warn_statement
  warn_statement-clean (StatementKind.drop object cascade concurrent) line f =
      warn_by-clean _ line f
  warn_statement-clean (truncate cascade) line f = push-clean _ f
  warn_statement-clean (create_index relation concurrent is_unique) line f = warn_by-clean _ line f
  warn_statement-clean (rename object to) line f = push-clean _ f
  warn_statement-clean (alter_table relation actions) line f = warn_alter_table-clean actions line f
  warn_statement-clean (transaction_control operation) line f = refl
  warn_statement-clean (create_table relation) line f = refl
  warn_statement-clean vacuum line f = refl
  warn_statement-clean (nontransactional construct) line f = refl
  warn_statement-clean (reindex concurrent) line f = refl
  warn_statement-clean other line f = refl

  warn_statements-clean :
      (ss : List Statement) (f : Findings)
      → is_clean (warn_statements policy m script ss f) ≡ is_clean f
  unfolding warn_statements
  warn_statements-clean [] f = refl
  warn_statements-clean (s ∷ ss) f =
      warn_statements-clean ss (warn_statement policy m script s.kind (some s.line) f)
      ∙ warn_statement-clean s.kind (some s.line) f

  pub collect_warnings-clean :
      (ss : List Statement) (f : Findings)
      → is_clean (collect_warnings policy m script ss f) ≡ is_clean f
  unfolding collect_warnings
  collect_warnings-clean ss f = ground (arith, warn_statements-clean ss f)
