-- ===== src/Deploy/Runs.antt =====
-- A run keeps the applied migrations closed under dependencies, wherever it stops.
use mathlib.Core.Path.{subst}
use zapadka.Common.{
  ◌≡◌, sym, ap, ◌∙◌, Bool, true, ◌||◌, List, [], ◌∷◌, ◌++◌, Option, none, some, ◌==◌, arith, All,
  contains, Bool-cases, Option-cases, inl, inr, ◌⊎◌,
}
use zapadka.Errors.{Error, ok, err}
use zapadka.Manifest.{Uuid, Library}
use zapadka.Graph.{Graph}
use zapadka.Graph.Facts.{deps}
use zapadka.Registry.{structural_v1}
use zapadka.Server.{Server, Wire, Runner}
use zapadka.Deploy.{
  MigrationResult, build_result, deploying, succeeded, run_deploy, apply_deployed, apply_all, Run,
}
use zapadka.Deploy.Accounts.{IsSelectable, apply_all-goes_on, skips_rest, apply_one-eq}
use zapadka.Deploy.Steps.{applied_to, Same, Plus, run_deploy-Adds, apply_deployed-Applies}

-- Every dependency of a member is a member.
abbrev pub IsClosed : Graph → (Uuid → Bool) → Type 0
IsClosed g held = (k d : Uuid) → held k ≡ true → contains (deps g k) d ≡ true → held d ≡ true

-- Each identity's dependencies are done before its turn comes.
abbrev pub IsReady : Graph → (Uuid → Bool) → List Uuid → Type 0
IsReady g held [] = Unit
IsReady g held (k ∷ ks) =
    ((d : Uuid) → contains (deps g k) d ≡ true → held d ≡ true)
    × IsReady g (λ d. k == d || held d) ks

module _ {ℓ} {S : Type ℓ} (lib : Library) (server : Server S) (wires : Uuid → Wire × Wire)
    (should_verify : Bool) where
  -- What a run over the identities leaves of the applied ones.
  pub record IsKeeping (g : Graph) (ids : List Uuid) (r : Runner S)
      (run : Run lib server wires should_verify) : Type 0 where
    pub closed : IsClosed g (applied_to run.runner)
    pub old : (k : Uuid) → applied_to r k ≡ true → applied_to run.runner k ≡ true
    pub selected :
        (k : Uuid) → applied_to run.runner k ≡ true → (applied_to r k || contains ids k) ≡ true
    pub complete :
        run.outcome ≡ ok tt → (k : Uuid) → contains ids k ≡ true → applied_to run.runner k ≡ true

  IsClosed-Same :
      (g : Graph) (before after : Uuid → Bool)
      → Same before after
      → IsClosed g before
      → IsClosed g after
  IsClosed-Same g before after same closed k d m n = same d ∙ closed k d (sym (same k) ∙ m) n

  IsClosed-Plus :
      (g : Graph) (id : Uuid) (before after : Uuid → Bool)
      → Plus id before after
      → ((d : Uuid) → contains (deps g id) d ≡ true → before d ≡ true)
      → IsClosed g before
      → IsClosed g after
  IsClosed-Plus g id before after plus ready closed k d m n =
      let held : before d ≡ true = elim (Bool-cases (id == k)) [
        | inl same ↦ ready d (subst (λ i. contains (deps g i) d ≡ true) (sym (equal id k same)) n)
        | inr other ↦ let p = plus k in closed k d (ground arith) n
      ] in
      let p = plus d in ground arith
    where
      equal : (a b : Uuid) → (a == b) ≡ true → a ≡ b
      equal a b h = ground arith

  -- A run that stops here keeps what a step left.
  stops :
      (g : Graph) (id : Uuid) (ids : List Uuid) (r after : Runner S)
      (run : Run lib server wires should_verify) (e : Error)
      → run.runner ≡ after
      → run.outcome ≡ err e
      → IsClosed g (applied_to after)
      → Same (applied_to r) (applied_to after) ⊎ Plus id (applied_to r) (applied_to after)
      → IsKeeping g (id ∷ ids) r run
  stops g id ids r after run e same failed closed step = record {
    closed = λ k d m n. at_run d ∙ closed k d (sym (at_run k) ∙ m) n;
    old = λ k m.
        let f = at_run k in
        elim step [ inl keeps ↦ let p = keeps k in cc | inr plus ↦ let p = plus k in ground arith ];
    selected = λ k m.
        let f = at_run k in
        elim step [
          | inl keeps ↦ let p = keeps k in ground arith
          | inr plus ↦ let p = plus k in ground arith
        ];
    complete = λ h k m. cc;
  }
    where
      at_run : (k : Uuid) → applied_to run.runner k ≡ applied_to after k
      at_run k = ap (λ (x : Runner S). applied_to x k) same

  goes_on :
      (g : Graph) (id : Uuid) (ids : List Uuid) (r after : Runner S)
      (run : Run lib server wires should_verify)
      → Plus id (applied_to r) (applied_to after)
      → IsKeeping g ids after run
      → IsKeeping g (id ∷ ids) r run
  goes_on g id ids r after run plus kept = record {
    closed = kept.closed;
    old = λ k m. let p = plus k in kept.old k (ground arith);
    selected = λ k m. let p = plus k in let q = kept.selected k m in ground arith;
    complete = λ h k m.
        let p = plus k in
        elim (Bool-cases (id == k)) [
          | inl same ↦ kept.old k (ground arith)
          | inr other ↦ kept.complete h k (ground arith)
        ];
  }

  -- A run over identities whose dependencies come first keeps the applied set closed under
  -- dependencies, forgets nothing, adds selected migrations only, and all of them when it succeeds.
  pub apply_all_keeps :
      (g : Graph) (ids : List Uuid) (r : Runner S) (report : List MigrationResult)
      (held : Uuid → Bool)
      → All (IsSelectable lib g) ids
      → IsClosed g (applied_to r)
      → ((d : Uuid) → held d ≡ true → applied_to r d ≡ true)
      → IsReady g held ids
      → IsKeeping g ids r (apply_all lib server wires should_verify g ids r report none)
  unfolding apply_all
  apply_all_keeps g [] r report held h closed known_held ready = record {
    closed = closed;
    old = λ k m. m;
    selected = λ k m. ground arith;
    complete = λ o k m. cc;
  }
  apply_all_keeps g (id ∷ ids) r report held (s, h) closed known_held (first, ready) =
      let m = s.source in
      let result = build_result m deploying succeeded s.definition structural_v1 in
      let deployed = run_deploy lib server wires should_verify m r in
      let x = apply_deployed lib server wires should_verify m result deployed in
      let further = report ++ x.1.0 ∷ [] in
      let all : Option Error → Run lib server wires should_verify =
        apply_all lib server wires should_verify g ids x.0 further in
      let step =
        apply_all-goes_on lib g server wires should_verify m id ids r x.0 report x.1.0 x.1.1 s.found
          (apply_one-eq lib g server wires should_verify m r s.definition s.parses) in
      let applies =
        apply_deployed-Applies lib server wires should_verify m result r deployed
          (run_deploy-Adds lib server wires should_verify m r) in
      let named = λ (plus : Plus m.id (applied_to r) (applied_to x.0)).
        subst (λ i. Plus i (applied_to r) (applied_to x.0)) s.identity plus in
      let added = λ (plus : Plus id (applied_to r) (applied_to x.0)).
        IsClosed-Plus g id (applied_to r) (applied_to x.0) plus (λ d n. known_held d (first d n))
          closed in
      elim (Option-cases x.1.1) [
        | inr (e, broken) ↦
            let (_, _, _, outcome, same_runner) =
              skips_rest lib g server wires should_verify ids x.0 further e h in
            let stop = stops g id ids r x.0 (all (some e)) e same_runner outcome in
            subst (IsKeeping g (id ∷ ids) r) (sym (step ∙ ap all broken)) (elim applies [
              | inl (same, _) ↦
                  stop (IsClosed-Same g (applied_to r) (applied_to x.0) same closed) (inl same)
              | inr plus ↦ stop (added (named plus)) (inr (named plus))
            ])
        | inl clean ↦ elim applies [
          | inl (same, (e, broken)) ↦ absurd (let f = sym clean ∙ broken in cc)
          | inr unnamed ↦
              let plus = named unnamed in
              subst (IsKeeping g (id ∷ ids) r) (sym (step ∙ ap all clean)) (
                goes_on g id ids r x.0 (all none) plus (
                  apply_all_keeps g ids x.0 further (λ d. id == d || held d) h (added plus)
                    (λ d n. let p = plus d in let q = known_held d in ground arith) ready))
        ]
      ]
