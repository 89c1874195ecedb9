-- ===== src/Revert/Leaves.antt =====
-- Reverting a migration that may be reverted keeps the applied set closed under dependencies.
use zapadka.Common.{
  ◌≡◌, sym, ap, ◌∙◌, Bool, true, false, List, [], ◌∷◌, some, arith, contains, contains_key, retain,
  is_empty, get, get-remove, Bool-cases, Option-cases, inl, inr, ◌==◌,
}
use zapadka.Errors.{ok, >>=-eq-ok, new, migration_reversibility_invalid}
use zapadka.Manifest.{Uuid, Library, guard}
use zapadka.Migration.{Migration}
use zapadka.Graph.{Graph, build, look_up, dependents_of, dependent_ids}
use zapadka.Graph.Facts.{deps, IsWellFormed}
use zapadka.Graph.Build.{build-eq-ok}
use zapadka.Registry.{RegistryState}
use zapadka.Server.{Server, Wire, Runner}
use zapadka.Runner.{revert_one}
use zapadka.Runner.Reverting.{revert_one_atomic}
use zapadka.Deploy.Steps.{applied_to}
use zapadka.Deploy.Runs.{IsClosed}
use zapadka.Revert.{check_revertible}

-- None of the migrations that were looked up passes a test that left nothing.
none_passes :
    (g : Graph) (p : Migration → Bool) (xs : List Uuid) (k : Uuid) (m : Migration)
    → is_empty (retain p (look_up g xs)) ≡ true
    → contains xs k ≡ true
    → get g.migrations k ≡ some m
    → p m ≡ false
unfolding look_up
none_passes g p [] k m h c e = cc
none_passes g p (x ∷ xs) k m h c e = elim (Bool-cases (x == k)) [
  | inl here ↦
      let same : x ≡ k = ground arith in
      let found : get g.migrations x ≡ some m = ap (get g.migrations) same ∙ e in
      elim (Bool-cases (p m)) [ inl passes ↦ absurd (ground arith) | inr fails ↦ fails ]
  | inr there ↦ elim (Option-cases (get g.migrations x)) [
    | inl absent ↦ none_passes g p xs k m (ground arith) (ground arith) e
    | inr (n, found) ↦ none_passes g p xs k m (ground arith) (ground arith) e
  ]
]

-- Nothing applied depends on a migration that may be reverted.
leaf :
    (lib : Library) (g : Graph) (state : RegistryState) (m : Migration) (k : Uuid)
    → IsWellFormed g
    → check_revertible lib g state m ≡ ok tt
    → contains_key state.applied k ≡ true
    → contains (deps g k) m.id ≡ false
unfolding check_revertible dependents_of
leaf lib g state m k formed h held = elim (Bool-cases (contains (deps g k) m.id)) [
  | inr apart ↦ apart
  | inl edge ↦ elim (Option-cases (get g.migrations k)) [
    | inl absent ↦ absurd (ground arith)
    | inr (n, found) ↦
        let (_, empty, _) =
          >>=-eq-ok
            (guard
              (is_empty (
                retain (λ (d : Migration). contains_key state.applied d.id)
                  (look_up g (dependent_ids g m.id))))
              (new migration_reversibility_invalid))
            _ h in
        let linked : contains (dependent_ids g m.id) k ≡ true =
          ground (arith, formed.linked k m.id) in
        let f =
          none_passes g (λ (d : Migration). contains_key state.applied d.id) (dependent_ids g m.id)
            k n (ground arith) linked found in
        let e = ap (contains_key state.applied) (formed.keyed k n found) in absurd cc
  ]
]

module _ {ℓ} {S : Type ℓ} (server : Server S) where
  -- In a built project, reverting a migration that `check_revertible` passes keeps the set of applied
  -- migrations closed under dependencies, whatever the server answers.
  pub revert_one-IsClosed :
      (lib : Library) (w : Wire) (list : List Migration) (g : Graph) (m : Migration) (r : Runner S)
      → build list ≡ ok g
      → check_revertible lib g r.db.state m ≡ ok tt
      → IsClosed g (applied_to r)
      → IsClosed g (applied_to (revert_one lib server w m r).0)
  revert_one-IsClosed lib w list g m r built may closed =
      let (_, formed, _) = build-eq-ok list g built in
      elim (revert_one_atomic server lib w m r) [
        | inl undone ↦
            let at =
              λ (k : Uuid). ap (λ (s : RegistryState). contains_key s.applied k) undone.state in
            λ k d c n. at d ∙ closed k d (sym (at k) ∙ c) n
        | inr (script, _, reverted) ↦
            let at = λ (k : Uuid).
              ap (λ (s : RegistryState). get s.applied k) reverted.state
              ∙ get-remove m.id r.db.state.applied k in
            λ k d c n.
              let here = at k in
              let there = at d in
              let held : applied_to r k ≡ true = ground arith in
              let apart = leaf lib g r.db.state m k formed may held in
              let kept = closed k d held n in
              elim (Bool-cases (m.id == d)) [
                | inl same ↦
                    absurd
                      (let e : m.id ≡ d = ground arith in let f = ap (contains (deps g k)) e in cc)
                | inr other ↦ ground arith
              ]
      ]
