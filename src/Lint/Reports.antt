-- ===== src/Lint/Reports.antt =====
-- Every risk that the deploy script of a linted migration takes is in the findings.
use zapadka.Common.{
  ◌≡◌, refl, Text, true, false, List, [], ◌∷◌, Option, none, some, Member, first, later, Bool-cases,
  Option-cases, inl, inr,
}
use zapadka.Manifest.{Transaction, required, forbidden}
use zapadka.Migration.{Migration, Script}
use zapadka.Sql.Statements.{Statement, forbidden_in_transaction}
use zapadka.Sql.Parser.{Parser, ParsedScript, parsed, parse, Parsing-cases, controls}
use zapadka.Errors.{new, at, position, script_transaction_control, script_statement_count}
use zapadka.Lint.Scripts.{runs_nothing}
use zapadka.Lint.{
  Diagnostic, Findings, Policy, Capabilities, push_error, warn, collect_warnings,
  check_transaction_control, check_required, check_forbidden, check_execution_mode, check_script,
  check_parsed, check_optional, check_migration, check_migrations, check, is_deploy, is_verify,
  empty_script,
}
use zapadka.Lint.Risks.{
  Risk, Keeps, Keeps-push_error, Keeps-push, Keeps-push_when, Keeps-warn_statements,
  warn_statements-reports,
}

Keeps-check_transaction_control :
    (script : Script) (ss : List Statement) (f : Findings)
    → Keeps f (check_transaction_control script ss f)
unfolding check_transaction_control
Keeps-check_transaction_control script [] f d h = h
Keeps-check_transaction_control script (s ∷ ss) f d h =
    let e = at (position script.relative_path s.line 1) (new script_transaction_control) in
    Keeps-check_transaction_control script ss (push_error e f) d (Keeps-push_error e f d h)

Keeps-check_required :
    (script : Script) (ss : List Statement) (f : Findings) → Keeps f (check_required script ss f)
unfolding check_required
Keeps-check_required script [] f d h = h
Keeps-check_required script (s ∷ ss) f d h = elim (Option-cases (forbidden_in_transaction s.kind)) [
  | inl free ↦ rw (free, check_required) (Keeps-check_required script ss f d h)
  | inr (construct, bound) ↦
      let e = at (position script.relative_path s.line 1) (new script_statement_count) in
      rw (bound, check_required)
        (Keeps-check_required script ss (push_error e f) d (Keeps-push_error e f d h))
]

Keeps-check_execution_mode :
    (mode : Transaction) (script : Script) (ss : List Statement) (f : Findings)
    → Keeps f (check_execution_mode mode script ss f)
unfolding check_execution_mode check_forbidden
Keeps-check_execution_mode required script ss f d h = Keeps-check_required script ss f d h
Keeps-check_execution_mode forbidden script ss f d h =
    Keeps-push_when _ _ _ d (Keeps-push_when _ _ _ d (Keeps-push_when _ _ f d h))

Keeps-collect_warnings :
    (policy : Policy) (m : Migration) (script : Script) (ss : List Statement) (f : Findings)
    → Keeps f (collect_warnings policy m script ss f)
unfolding collect_warnings
Keeps-collect_warnings policy m script ss f d h = elim (Bool-cases (is_deploy script.role)) [
  | inl warned ↦ rw warned (Keeps-warn_statements policy m script ss f d h)
  | inr quiet ↦ rw quiet h
]

module _ (parser : Parser) (policy : Policy) (m : Migration) where
  Keeps-check_parsed :
      (mode : Transaction) (script : Script) (p : ParsedScript) (f : Findings)
      → Keeps f (check_parsed parser policy m mode script p f)
  Keeps-check_parsed mode script p f d h = Keeps-collect_warnings policy m script p.statements _ d (
      Keeps-check_execution_mode mode script p.statements _ d
        (Keeps-check_transaction_control script (controls p) f d h))

  Keeps-check_script :
      (mode : Transaction) (script : Script) (f : Findings)
      → Keeps f (check_script parser policy m mode script f)
  unfolding check_script
  Keeps-check_script mode script f d h = elim (Bool-cases (runs_nothing parser script.sql)) [
    | inl nothing ↦ rw nothing (elim (Bool-cases (is_verify script.role)) [
      | inl verified ↦ rw verified (Keeps-push_error _ f d h)
      | inr plain ↦ rw plain (Keeps-push (warn policy m script empty_script none) f d h)
    ])
    | inr something ↦ rw something (elim (Parsing-cases (parse parser script.sql)) [
      | inl (e, failed) ↦ rw failed (Keeps-push_error _ f d h)
      | inr (p, found) ↦ rw found (Keeps-check_parsed mode script p f d h)
    ])
  ]

  Keeps-check_optional :
      (script : Option Script) (f : Findings) → Keeps f (check_optional parser policy m script f)
  Keeps-check_optional none f d h = h
  Keeps-check_optional (some script) f d h = Keeps-check_script required script f d h

  check_script-reports :
      (mode : Transaction) (script : Script) (p : ParsedScript) (s : Statement) (code : Text)
      (f : Findings)
      → is_deploy script.role ≡ true
      → runs_nothing parser script.sql ≡ false
      → parse parser script.sql ≡ parsed p
      → Member s p.statements
      → Risk s.kind code
      → Member
          (warn policy m script code (some s.line))
          (check_script parser policy m mode script f).diagnostics
  unfolding check_script collect_warnings
  check_script-reports mode script p s code f role something found member risk =
      rw (something, found, role)
        (warn_statements-reports policy m script p.statements s code _ member risk)

module _ (parser : Parser) (policy : Policy) (can : Capabilities) where
  Keeps-check_migration :
      (m : Migration) (f : Findings) → Keeps f (check_migration parser policy m can f)
  unfolding check_migration
  Keeps-check_migration m f d h = Keeps-check_optional parser policy m m.verify _ d (
      Keeps-check_optional parser policy m m.revert _ d (
        Keeps-check_script parser policy m m.manifest.transaction m.deploy _ d
          (Keeps-push_when _ _ f d h)))

  Keeps-check_migrations :
      (ms : List Migration) (f : Findings) → Keeps f (check_migrations parser policy can ms f)
  unfolding check_migrations
  Keeps-check_migrations [] f d h = h
  Keeps-check_migrations (m ∷ ms) f d h =
      Keeps-check_migrations ms (check_migration parser policy m can f) d
        (Keeps-check_migration m f d h)

  -- A statement of a migration's deploy script, which runs something and parses.
  pub record Deploys (m : Migration) (s : Statement) : Type 0 where
    pub deployed : is_deploy m.deploy.role ≡ true
    pub something : runs_nothing parser m.deploy.sql ≡ false
    pub text : ParsedScript
    pub reads : parse parser m.deploy.sql ≡ parsed text
    pub among : Member s text.statements

  check_migration-reports :
      (m : Migration) (s : Statement) (code : Text) (f : Findings)
      → Deploys m s
      → Risk s.kind code
      → Member
          (warn policy m m.deploy code (some s.line))
          (check_migration parser policy m can f).diagnostics
  unfolding check_migration
  check_migration-reports m s code f d risk = Keeps-check_optional parser policy m m.verify _ _ (
      Keeps-check_optional parser policy m m.revert _ _ (
        check_script-reports parser policy m m.manifest.transaction m.deploy d.text s code _
          d.deployed d.something d.reads d.among risk))

  check_migrations-reports :
      (ms : List Migration) (m : Migration) (s : Statement) (code : Text) (f : Findings)
      → Member m ms
      → Deploys m s
      → Risk s.kind code
      → Member
          (warn policy m m.deploy code (some s.line))
          (check_migrations parser policy can ms f).diagnostics
  unfolding check_migrations
  check_migrations-reports [] m s code f h d risk = elim h [ ]
  check_migrations-reports (m ∷ ms) _ s code f first d risk =
      Keeps-check_migrations ms (check_migration parser policy m can f) _
        (check_migration-reports m s code f d risk)
  check_migrations-reports (n ∷ ms) m s code f (later h) d risk =
      check_migrations-reports ms m s code (check_migration parser policy n can f) h d risk

  pub check-warns :
      (ms : List Migration) (m : Migration) (s : Statement) (code : Text)
      → Member m ms
      → Deploys m s
      → Risk s.kind code
      → Member (warn policy m m.deploy code (some s.line)) (check parser policy can ms).diagnostics
  check-warns ms m s code = check_migrations-reports ms m s code _

  -- Whatever else lint finds, each risk that a statement of a deploy script takes is reported: some
  -- diagnostic has the rule of the risk as its code, names the migration, and points at the script
  -- and the statement's line. The risks are dropping or truncating data, rewriting a table, an
  -- index that blocks writes, a constraint that scans the table, and a rename.
  pub check-reports :
      (ms : List Migration) (m : Migration) (s : Statement) (code : Text)
      → Member m ms
      → Deploys m s
      → Risk s.kind code
      → (d : Diagnostic) × Member d (check parser policy can ms).diagnostics
        × (d.code ≡ code)
        × (d.migration_id ≡ some m.id)
        × (d.location
            ≡ some (record { path = m.deploy.relative_path; line = some s.line; column = none }))
  unfolding warn
  check-reports ms m s code among deploys risk = (
    warn policy m m.deploy code (some s.line),
    check-warns ms m s code among deploys risk,
    refl,
    refl,
    refl,
  )
