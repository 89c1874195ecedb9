-- ===== src/Lint/Scripts.antt =====
-- crates/zapadka-core/src/lint.rs: what lint and the runner both ask of a script before it is run.
use zapadka.Common.{Text, Bool, false, ◌||◌, List, [], ◌∷◌, is_empty, trim}
use zapadka.Errors.{
  Result, ok, err, new, at, position, script_parse_error, script_transaction_control,
}
use zapadka.Sql.Statements.{Statement}
use zapadka.Sql.Parser.{Parser, Parsing, ParsedScript, parsed, malformed, parse, controls}

abbrev pub no_statements : Parsing ParsedScript → Bool
no_statements (malformed e) = false
no_statements (parsed script) = is_empty script.statements

-- `runs_nothing`, and `Script::runs_nothing` on the script's text.
unfoldable pub runs_nothing : Parser → Text → Bool
runs_nothing parser sql = is_empty (trim sql) || no_statements (parse parser sql)

-- `transaction_control().next()`: the first statement that controls the transaction is refused.
abbrev pub refuse_first : Text → List Statement → Result (Unit {0})
refuse_first path [] = ok tt
refuse_first path (s ∷ rest) = err (at (position path s.line 1) (new script_transaction_control))

-- `ensure_runner_owns_transaction`.
unfoldable pub ensure_runner_owns_transaction : Parser → Text → Text → Result (Unit {0})
ensure_runner_owns_transaction parser sql path = elim (parse parser sql) [
  | malformed e ↦ err (at (position path e.line e.column) (new script_parse_error))
  | parsed script ↦ refuse_first path (controls script)
]
