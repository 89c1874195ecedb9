-- ===== src/Lint/Command.antt =====
-- crates/zapadka/src/commands/lint.rs: the verdict that lint, deploy and baseline share, and what it
-- promises to the runner. The session is the list of diagnostics it has recorded.
use mathlib.Core.Path.{subst}
use zapadka.Common.{
  ◌≢◌, ◌≡◌, ◌↔◌, ◌⊎◌, ◌&&◌, refl, Text, codes, text_eq, true, false, List, [], ◌∷◌, ◌++◌, Option,
  none, some, any, retain, map, if◌then◌else◌, is_empty, trim, arith, All, Member, first, later,
  Bool-cases, inl, inr,
}
use zapadka.Errors.{Error, Result, ok, err, file, Result-cases}
use zapadka.Manifest.{required, Transaction, suppression}
use zapadka.Migration.{Migration, Script, ScriptRole, deploy, revert, verify, script}
use zapadka.Graph.{Graph, deployment_order}
use zapadka.Sql.Statements.{Statement}
use zapadka.Sql.Parser.{Parser, ParsedScript, parsed, parse, controls, Parsing-cases}
use zapadka.Lint.Scripts.{runs_nothing, refuse_first, ensure_runner_owns_transaction}
use zapadka.Lint.{
  Findings, Policy, Capabilities, Diagnostic, warning, is_error, all_codes, check, apply_policy,
  warn, promoted,
}
use zapadka.Lint.Modes.{suits-runs_in, controlled}
use zapadka.Lint.Verdicts.{IsSound, idle, busy, IsExecutable, IsSoundOptional, check_iff}
use zapadka.Lint.Risks.{Risk}
use zapadka.Lint.Reports.{Deploys, check-warns}

-- `zapadka_core::config::CONFIG_FILE_NAME`.
abbrev config_file_name : Text
config_file_name = codes "zapadka.toml"

-- `report_unknown_denials`.
unfoldable pub report_unknown_denials : List Text → List Diagnostic → List Diagnostic
report_unknown_denials [] session = session
report_unknown_denials (denied ∷ rest) session = report_unknown_denials rest (
    if any (text_eq denied) all_codes
    then session
    else session
      ++ record {
        severity = warning;
        code = codes "policy.unknown_lint";
        migration_id = none;
        location = some (file config_file_name);
      }
        ∷ [])

-- `findings.first_error()`, and the result that `validate` makes of it.
abbrev pub first_error : List Error → Result (Unit {0})
first_error [] = ok tt
first_error (e ∷ es) = err e

module _ (parser : Parser) (g : Graph) (policy : Policy) (can : Capabilities) where
  -- `analyze`.
  unfoldable pub analyze : Findings
  analyze = apply_policy (check parser policy can (deployment_order g))

  -- `validate`.
  unfoldable pub validate : List Diagnostic → List Diagnostic × Result (Unit {0})
  unfolding analyze
  validate session = (
    report_unknown_denials policy.deny (session ++ analyze.diagnostics),
    first_error analyze.errors,
  )

is_empty-append : {A : Type 0} (xs ys : List A) → is_empty (xs ++ ys) ≡ (is_empty xs && is_empty ys)
is_empty-append [] ys = refl
is_empty-append (x ∷ xs) ys = refl

abbrev pub IsHarmless : Diagnostic → Type 0
IsHarmless d = is_error d.severity ≡ false

none_promoted :
    (ds : List Diagnostic)
    → (is_empty (map promoted (retain (λ (d : Diagnostic). is_error d.severity) ds)) ≡ true)
      ↔ All IsHarmless ds
none_promoted [] = ((λ h. tt), (λ h. refl))
none_promoted (d ∷ ds) = elim (Bool-cases (is_error d.severity)) [
  | inl bad ↦ ((λ h. absurd (ground arith)), (λ h. absurd (ground arith)))
  | inr harmless ↦
      let rest = none_promoted ds in
      ((λ h. (harmless, rest.0 (rw harmless at h))), (λ h. rw harmless (rest.1 h.1)))
]

first_error-ok : (es : List Error) → (first_error es ≡ ok tt) ↔ (is_empty es ≡ true)
first_error-ok [] = ((λ h. refl), (λ h. refl))
first_error-ok (e ∷ es) = ((λ h. absurd cc), (λ h. absurd cc))

module _ (parser : Parser) (g : Graph) (policy : Policy) (can : Capabilities) where
  -- The verdict is favourable exactly when each migration of the project is executable and no
  -- diagnostic has the severity of an error.
  pub verdict_iff :
      (session : List Diagnostic)
      → ((validate parser g policy can session).1 ≡ ok tt) ↔ (
          All (IsExecutable parser can) (deployment_order g)
          × All IsHarmless (check parser policy can (deployment_order g)).diagnostics)
  unfolding validate apply_policy
  verdict_iff session =
      let found = check parser policy can (deployment_order g) in
      let more =
        map promoted (retain (λ (d : Diagnostic). is_error d.severity) found.diagnostics) in
      let e = is_empty-append found.errors more in
      let verdict = first_error-ok (found.errors ++ more) in
      let sound = check_iff parser policy can (deployment_order g) in
      let harmless = none_promoted found.diagnostics in
      (
        (λ h. let passed = verdict.0 h in (sound.0 (ground arith), harmless.0 (ground arith))),
        (λ h. let a = sound.1 h.0 in let b = harmless.1 h.1 in verdict.1 (ground arith)),
      )

All-Member {ℓ κ} :
    {A : Type ℓ} (P : A → Type κ) {a : A} (xs : List A) → All P xs → Member a xs → P a
All-Member P [] all h = elim h [ ]
All-Member P (x ∷ xs) all first = all.0
All-Member P (x ∷ xs) all (later h) = All-Member P xs all.1 h

refuse_first-empty :
    (path : Text) (ss : List Statement) → is_empty ss ≡ true → refuse_first path ss ≡ ok tt
refuse_first-empty path [] h = refl
refuse_first-empty path (s ∷ ss) h = absurd cc

none_controlled :
    (ss : List Statement) → is_empty ss ≡ true → is_empty (retain controlled ss) ≡ true
none_controlled [] h = refl
none_controlled (s ∷ ss) h = absurd cc

some_injective {ℓ} : {A : Type ℓ} {a b : A} → some a ≡ some b → a ≡ b
some_injective e = cc

module _ (parser : Parser) where
  -- The runner will find nothing to refuse in the script, unless it is made of blanks.
  abbrev pub IsOwned : Script → Type 0
  IsOwned script =
      (is_empty (trim script.sql) ≡ true)
      ⊎ (ensure_runner_owns_transaction parser script.sql script.relative_path ≡ ok tt)

  owned_when_parsed :
      (sql path : Text) (p : ParsedScript)
      → parse parser sql ≡ parsed p
      → is_empty (retain controlled p.statements) ≡ true
      → ensure_runner_owns_transaction parser sql path ≡ ok tt
  unfolding ensure_runner_owns_transaction
  owned_when_parsed sql path p found none_left =
      rw (found, ensure_runner_owns_transaction) (refuse_first-empty path (controls p) none_left)

  idle_parses :
      (sql : Text)
      → runs_nothing parser sql ≡ true
      → is_empty (trim sql) ≡ false
      → (p : ParsedScript) × (parse parser sql ≡ parsed p) × (is_empty p.statements ≡ true)
  unfolding runs_nothing
  idle_parses sql nothing inked = elim (Parsing-cases (parse parser sql)) [
    | inl (e, failed) ↦ absurd (ground arith)
    | inr (p, found) ↦ (p, found, ground arith)
  ]

  IsSound-IsOwned :
      (mode : Transaction) (script : Script) → IsSound parser mode script → IsOwned script
  IsSound-IsOwned mode script (idle nothing plain) =
      elim (Bool-cases (is_empty (trim script.sql))) [
        | inl blank ↦ inl blank
        | inr inked ↦
            let (p, found, empty) = idle_parses script.sql nothing inked in
            inr (
              owned_when_parsed script.sql script.relative_path p found
                (none_controlled p.statements empty))
      ]
  IsSound-IsOwned mode script (busy p something found fit) = inr (
      owned_when_parsed script.sql script.relative_path p found
        (let e = suits-runs_in mode p.statements in ground arith))

  optional-IsOwned :
      (o : Option Script) (sc : Script) → IsSoundOptional parser o → o ≡ some sc → IsOwned sc
  optional-IsOwned none sc x e = absurd cc
  optional-IsOwned (some s) sc x e = subst IsOwned (some_injective e) (IsSound-IsOwned required s x)

  IsExecutable-IsOwned :
      (can : Capabilities) (m : Migration) (role : ScriptRole) (sc : Script)
      → IsExecutable parser can m
      → script m role ≡ some sc
      → IsOwned sc
  unfolding script
  IsExecutable-IsOwned can m deploy sc x e =
      subst IsOwned (some_injective e) (IsSound-IsOwned m.manifest.transaction m.deploy x.deploy)
  IsExecutable-IsOwned can m revert sc x e = optional-IsOwned m.revert sc x.revert e
  IsExecutable-IsOwned can m verify sc x e = optional-IsOwned m.verify sc x.verify e

  module _ (g : Graph) (policy : Policy) (can : Capabilities) (session : List Diagnostic) where
    -- After a favourable verdict the runner refuses no script of the project for taking the
    -- transaction away or for not parsing, unless the script is made of blanks.
    pub validate-IsOwned :
        (m : Migration) (role : ScriptRole) (sc : Script)
        → (validate parser g policy can session).1 ≡ ok tt
        → Member m (deployment_order g)
        → script m role ≡ some sc
        → IsOwned sc
    validate-IsOwned m role sc h member e =
        IsExecutable-IsOwned can m role sc
          (All-Member (IsExecutable parser can) (deployment_order g)
            ((verdict_iff parser g policy can session).0 h).0 member)
          e

    denied_is_error :
        (m : Migration) (s : Statement) (code : Text)
        → any (λ d. text_eq d code) policy.deny ≡ true
        → suppression m.manifest code ≡ none
        → is_error (warn policy m m.deploy code (some s.line)).severity ≢ false
    unfolding warn
    denied_is_error m s code denied bare h = ground arith

    -- A risk that the policy denies fails the verdict, unless the migration accepts it by a reason
    -- of its own.
    pub validate-denies :
        (m : Migration) (s : Statement) (code : Text)
        → Member m (deployment_order g)
        → Deploys parser policy can m s
        → Risk s.kind code
        → any (λ d. text_eq d code) policy.deny ≡ true
        → suppression m.manifest code ≡ none
        → (e : Error) × ((validate parser g policy can session).1 ≡ err e)
    validate-denies m s code member d risk denied bare =
        elim (Result-cases (validate parser g policy can session).1) [
          | inl failed ↦ failed
          | inr (_, passed) ↦
              let harmless =
                All-Member IsHarmless (check parser policy can (deployment_order g)).diagnostics
                  ((verdict_iff parser g policy can session).0 passed).1
                  (check-warns parser policy can (deployment_order g) m s code member d risk) in
              absurd (denied_is_error m s code denied bare harmless)
        ]
