-- ===== src/Lint/Verdicts.antt =====
-- Lint finds no error exactly when each script can be run the way its manifest says.
use zapadka.Common.{
  ◌≡◌, ◌↔◌, refl, ◌∙◌, true, false, not, ◌&&◌, List, [], ◌∷◌, Option, none, some, arith, Bool-cases,
  inl, inr, All,
}
use zapadka.Errors.{
  new, at, file, execution_mode_unsupported, position, script_empty, script_parse_error,
}
use zapadka.Manifest.{Transaction, required}
use zapadka.Migration.{Migration, Script, manifest_path}
use zapadka.Sql.Parser.{Parser, ParsedScript, parsed, malformed, parse, ParseError, Parsing-cases}
use zapadka.Lint.Scripts.{runs_nothing}
use zapadka.Lint.Modes.{
  is_clean, suits, push_error-clean, push-clean, push_when-clean, check_execution_mode-clean,
  collect_warnings-clean,
}
use zapadka.Lint.{
  push_when, Findings, Policy, Capabilities, check_script, check_parsed, check_optional,
  check_migration, check_migrations, check, is_verify, unsupported, warn, empty_script,
}

module _ (parser : Parser) where
  -- A script that runs nothing is no verification; any other parses to statements that suit the mode.
  pub data IsSound (mode : Transaction) (script : Script) : Type 0 where
    idle :
        runs_nothing parser script.sql ≡ true → is_verify script.role ≡ false → IsSound mode script
    busy :
        (p : ParsedScript)
        → runs_nothing parser script.sql ≡ false
        → parse parser script.sql ≡ parsed p
        → suits mode p.statements ≡ true
        → IsSound mode script

  abbrev pub IsSoundOptional : Option Script → Type 0
  IsSoundOptional none = Unit
  IsSoundOptional (some script) = IsSound required script

  -- The deploy script suits the mode of its manifest, which this build can run, and the others a
  -- transaction.
  pub record IsExecutable (can : Capabilities) (m : Migration) : Type 0 where
    pub supported : unsupported m.manifest.transaction can ≡ false
    pub deploy : IsSound m.manifest.transaction m.deploy
    pub revert : IsSoundOptional m.revert
    pub verify : IsSoundOptional m.verify

  module _ (policy : Policy) (m : Migration) where
    check_parsed-clean :
        (mode : Transaction) (script : Script) (p : ParsedScript) (f : Findings)
        → is_clean (check_parsed parser policy m mode script p f)
          ≡ (is_clean f && suits mode p.statements)
    check_parsed-clean mode script p f =
        collect_warnings-clean policy m script p.statements _
        ∙ check_execution_mode-clean mode script p.statements f

    check_script_idle :
        (mode : Transaction) (script : Script) (f : Findings)
        → runs_nothing parser script.sql ≡ true
        → is_clean (check_script parser policy m mode script f)
          ≡ (is_clean f && not (is_verify script.role))
    unfolding check_script
    check_script_idle mode script f h = ground (
      arith,
      push_error-clean (at (file script.relative_path) (new script_empty)) f,
      push-clean (warn policy m script empty_script none) f,
    )

    check_script_malformed :
        (mode : Transaction) (script : Script) (f : Findings) (e : ParseError)
        → runs_nothing parser script.sql ≡ false
        → parse parser script.sql ≡ malformed e
        → is_clean (check_script parser policy m mode script f) ≡ false
    unfolding check_script
    check_script_malformed mode script f e h p = ground (
      arith,
      push_error-clean (at (position script.relative_path e.line e.column) (new script_parse_error))
          f,
    )

    check_script_parsed :
        (mode : Transaction) (script : Script) (f : Findings) (p : ParsedScript)
        → runs_nothing parser script.sql ≡ false
        → parse parser script.sql ≡ parsed p
        → is_clean (check_script parser policy m mode script f)
          ≡ (is_clean f && suits mode p.statements)
    unfolding check_script
    check_script_parsed mode script f p h q = ground (arith, check_parsed-clean mode script p f)

    check_script-IsSound :
        (mode : Transaction) (script : Script) (f : Findings)
        → is_clean (check_script parser policy m mode script f) ≡ true
        → (is_clean f ≡ true) × IsSound mode script
    check_script-IsSound mode script f h = elim (Bool-cases (runs_nothing parser script.sql)) [
      | inl nothing ↦
          let e = check_script_idle mode script f nothing in
          (ground arith, idle nothing (ground arith))
      | inr something ↦ elim (Parsing-cases (parse parser script.sql)) [
        | inl (x, failed) ↦ absurd (cc (check_script_malformed mode script f x something failed))
        | inr (p, found) ↦
            let e = check_script_parsed mode script f p something found in
            (ground arith, busy p something found (ground arith))
      ]
    ]

    IsSound-check_script :
        (mode : Transaction) (script : Script) (f : Findings)
        → is_clean f ≡ true
        → IsSound mode script
        → is_clean (check_script parser policy m mode script f) ≡ true
    IsSound-check_script mode script f h (idle nothing plain) =
        ground (arith, check_script_idle mode script f nothing)
    IsSound-check_script mode script f h (busy p something found fit) =
        ground (arith, check_script_parsed mode script f p something found)

    check_optional_iff :
        (script : Option Script) (f : Findings)
        → (is_clean (check_optional parser policy m script f) ≡ true)
          ↔ ((is_clean f ≡ true) × IsSoundOptional script)
    check_optional_iff none f = ((λ h. (h, tt)), (λ h. h.0))
    check_optional_iff (some script) f = (
      check_script-IsSound required script f,
      λ h. IsSound-check_script required script f h.0 h.1,
    )

    check_migration_iff :
        (can : Capabilities) (f : Findings)
        → (is_clean (check_migration parser policy m can f) ≡ true)
          ↔ ((is_clean f ≡ true) × IsExecutable can m)
    unfolding check_migration
    check_migration_iff can f =
        let begun =
          push_when (unsupported m.manifest.transaction can)
            (at (file (manifest_path m)) (new execution_mode_unsupported)) f in
        let first = check_script parser policy m m.manifest.transaction m.deploy begun in
        let second = check_optional parser policy m m.revert first in
        let e =
          push_when-clean (unsupported m.manifest.transaction can)
            (at (file (manifest_path m)) (new execution_mode_unsupported)) f in
        (
          λ h.
              let (a, verified) = (check_optional_iff m.verify second).0 h in
              let (b, reverted) = (check_optional_iff m.revert first).0 a in
              let (c, deployed) = check_script-IsSound m.manifest.transaction m.deploy begun b in
              (
                ground arith,
                record {
                  supported = ground arith;
                  deploy = deployed;
                  revert = reverted;
                  verify = verified;
                },
              ),
          λ h. (check_optional_iff m.verify second).1 (
            (check_optional_iff m.revert first).1 (
              IsSound-check_script m.manifest.transaction m.deploy begun
                  (let known = h.1.supported in ground arith) h.1.deploy,
              h.1.revert,
            ),
            h.1.verify,
          ),
        )

  module _ (policy : Policy) (can : Capabilities) where
    check_migrations_iff :
        (ms : List Migration) (f : Findings)
        → (is_clean (check_migrations parser policy can ms f) ≡ true)
          ↔ ((is_clean f ≡ true) × All (IsExecutable can) ms)
    unfolding check_migrations
    check_migrations_iff [] f = ((λ h. (h, tt)), (λ h. h.0))
    check_migrations_iff (m ∷ ms) f =
        let step = check_migration_iff policy m can f in
        let more = check_migrations_iff ms (check_migration parser policy m can f) in
        (
          λ h. let (a, rest) = more.0 h in let (b, here) = step.0 a in (b, (here, rest)),
          λ h. more.1 (step.1 (h.0, h.1.0), h.1.1),
        )

    -- Lint finds no error in a list of migrations exactly when each is executable: this build can
    -- run its mode, and each script either runs nothing, and is then no verification, or parses to
    -- statements that suit its mode. In a transaction no statement controls the transaction or is
    -- one that PostgreSQL refuses there; without one there is a single statement, which PostgreSQL
    -- does refuse there, which controls no transaction, and which keeps the session's lock.
    pub check_iff :
        (ms : List Migration)
        → (is_clean (check parser policy can ms) ≡ true) ↔ All (IsExecutable can) ms
    check_iff ms =
        let step = check_migrations_iff ms (record { errors = []; diagnostics = [] }) in
        (λ h. (step.0 h).1, λ h. step.1 (refl, h))
