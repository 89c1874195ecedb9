-- ===== src/Graph/Accepts.antt =====
-- `build` accepts exactly the projects whose dependencies are in the project and have no cycle.
use zapadka.Common.{
  ℕ, ◌≡◌, refl, true, false, List, [], ◌∷◌, arith, contains, keys, values, inl, inr, ◌↔◌, ◌⊎◌, sym,
  Bool,
}
use mathlib.Core.Path.{subst}
use zapadka.Errors.{Error, ok, err, Result-cases, graph_cycle, migration_unknown_dependency, Result}
use zapadka.Manifest.{Uuid}
use zapadka.Migration.{Migration}
use zapadka.Graph.{
  Graph, graph, no_dependents, link_all, build, check_for_cycles, cycle_error, cycle_of,
  topological_sort,
}
use zapadka.Graph.Facts.{deps, known, IsWellFormed, IsDistinct}
use zapadka.Graph.Linking.{linked-IsWellFormed, linked-err}
use zapadka.Graph.Order.{IsRanked, topological_sort-IsOrdered}
use zapadka.Graph.Build.{
  project, AllKnown, Ranks, AllDistinct, build-eq-ok, checked_complete, ranked_checks, index,
  IsOrdered-index,
}

-- What `build` does once the edges are linked.
build_checks :
    (list : List Migration) (dependents : List (Uuid × List Uuid))
    → link_all (values (project list)) (no_dependents (keys (project list))) ≡ ok dependents
    → check_for_cycles (graph (project list) dependents) ≡ ok tt
    → build list ≡ ok (graph (project list) dependents)
unfolding build
build_checks list dependents linked checked = ground arith

built_rank :
    (list : List Migration) (g : Graph)
    → AllDistinct (project list)
    → build list ≡ ok g
    → AllKnown (project list) × ((rank : Uuid → ℕ) × Ranks (project list) rank)
built_rank list g separate h =
    let (e, formed, checked) = build-eq-ok list g h in
    let distinct : IsDistinct g = subst AllDistinct (sym e) separate in
    let rank = index (topological_sort g) in
    let (ordered, _, _) = topological_sort-IsOrdered g formed distinct in
    let all = checked_complete g formed distinct checked in
    let ranked : IsRanked g rank = λ k d edge.
      elim (IsOrdered-index g [] (topological_sort g) k d ordered (placed formed all k d edge)
        edge) [ inl seen ↦ cc | inr less ↦ less ] in
    (subst AllKnown e formed.deps_known, (rank, subst (λ m. Ranks m rank) e ranked))
  where
    placed :
        IsWellFormed g
        → ((k : Uuid) → contains (topological_sort g) k ≡ known g k)
        → (k d : Uuid) → contains (deps g k) d ≡ true
        → contains (topological_sort g) k ≡ true
    placed formed all k d edge = ground (arith, all k)

ranked_builds :
    (list : List Migration) (rank : Uuid → ℕ)
    → AllDistinct (project list)
    → AllKnown (project list)
    → Ranks (project list) rank
    → (g : Graph) × (build list ≡ ok g)
ranked_builds list rank separate all_known ranked =
    elim (Result-cases (link_all (values m) (no_dependents (keys m)))) [
      | inr (dependents, linked) ↦
          let g = graph m dependents in
          (
            g,
            build_checks list dependents linked
                (ranked_checks g (linked-IsWellFormed list dependents linked) separate rank ranked),
          )
      | inl (e, failed) ↦
          let (_, (k, d, edge, absent)) = linked-err list e failed in
          let there = all_known k d edge in absurd (false_of there absent)
    ]
  where
    m : List (Uuid × Migration)
    m = project list

    false_of : {b : Bool} → b ≡ true → b ≡ false → ⊥
    false_of p q = cc

-- `build` succeeds exactly when every dependency is a migration of the project and some ranking puts
-- each below its dependent, that is, when no chain of dependencies comes back to its start.
pub build_accepts :
    (list : List Migration)
    → AllDistinct (project list)
    → ((g : Graph) × (build list ≡ ok g))
      ↔ (AllKnown (project list) × ((rank : Uuid → ℕ) × Ranks (project list) rank))
build_accepts list separate = (
  λ (g, h). built_rank list g separate h,
  λ (all_known, (rank, ranked)). ranked_builds list rank separate all_known ranked,
)

cycle_error-code : (g : Graph) (c : List Uuid) → (cycle_error g c).code ≡ graph_cycle
cycle_error-code g [] = refl
cycle_error-code g (id ∷ c) = ground arith

check-code : (g : Graph) (e : Error) → check_for_cycles g ≡ err e → e.code ≡ graph_cycle
unfolding check_for_cycles
check-code g e h = ground (arith, cycle_error-code g (cycle_of g))

build_unlinked :
    (list : List Migration) (e e' : Error)
    → link_all (values (project list)) (no_dependents (keys (project list))) ≡ err e'
    → build list ≡ err e
    → e' ≡ e
unfolding build
build_unlinked list e e' failed h = ground arith

build_unchecked :
    (list : List Migration) (dependents : List (Uuid × List Uuid)) (e : Error)
    → link_all (values (project list)) (no_dependents (keys (project list))) ≡ ok dependents
    → build list ≡ err e
    → check_for_cycles (graph (project list) dependents) ≡ err e
unfolding build
build_unchecked list dependents e linked h =
    elim (Result-cases (check_for_cycles (graph (project list) dependents))) [
      | inr (_, passed) ↦ ground arith
      | inl (e', failed) ↦ ground arith
    ]

-- Where no migration lists a dependency twice, a project that `build` refuses has a dependency
-- outside it, reported as unknown, or all are in it and no ranking exists, reported as a cycle.
pub build_refuses :
    (list : List Migration) (e : Error)
    → AllDistinct (project list)
    → build list ≡ err e
    → (¬ AllKnown (project list)) × (e.code ≡ migration_unknown_dependency)
      ⊎ AllKnown (project list)
        × ((rank : Uuid → ℕ) → ¬ Ranks (project list) rank)
        × (e.code ≡ graph_cycle)
build_refuses list e separate h =
    elim (Result-cases (link_all (values (project list)) (no_dependents (keys (project list))))) [
      | inr (dependents, linked) ↦
          let g = graph (project list) dependents in
          let formed = linked-IsWellFormed list dependents linked in
          let failed = build_unchecked list dependents e linked h in
          inr (
            formed.deps_known,
            λ rank ranked. ok_ne_err (ranked_checks g formed separate rank ranked) failed,
            check-code g e failed,
          )
      | inl (e', failed) ↦
          let (code, (k, d, edge, absent)) = linked-err list e' failed in
          inl (
            λ all_known. false_of (all_known k d edge) absent,
            rw (build_unlinked list e e' failed h) at code,
          )
    ]
  where
    false_of : {b : Bool} → b ≡ true → b ≡ false → ⊥
    false_of p q = cc

    ok_ne_err : {r : Result (Unit {0})} {x : Error} → r ≡ ok tt → r ≡ err x → ⊥
    ok_ne_err p q = cc
