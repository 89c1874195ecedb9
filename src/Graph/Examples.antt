-- ===== src/Graph/Examples.antt =====
-- A small project, and the theorems at it: 1 ← 2, 1 ← 3, and 4 depends on 2 and 3.
use zapadka.Common.{
  ℕ, ◌≡◌, refl, true, List, [], ◌∷◌, ◌++◌, codes, none, some, contains, retain, arith, ◌↔◌, ◌⊎◌,
  keys, values,
}
use zapadka.Errors.{Error, ok, err, new, at, file, graph_cycle, migration_unknown_dependency}
use zapadka.Manifest.{Uuid, required, irreversible}
use zapadka.Migration.{Migration, deploy}
use zapadka.Graph.{
  Graph, collect, no_dependents, link_one, link_all, release, release_all, dependent_ids, place,
  sort_loop, initial_counts, initial_ready, initial_work, topological_sort, next_stuck, cycle_walk,
  find_cycle, stuck_ids, cycle_of, cycle_error, check_for_cycles, build, heads_of, heads, look_up,
  dependents_of, deployment_order, push_all, pushed, closure_loop, total_depends, included_from,
  closure_of,
}
use zapadka.Graph.Facts.{known}
use zapadka.Graph.Linking.{linked-IsWellFormed}
use zapadka.Graph.Build.{project, AllKnown, Ranks, AllDistinct}
use zapadka.Graph.Accepts.{build_accepts, build_refuses}
use zapadka.Graph.Unique.{IsSchedule, topological_sort_unique}
use zapadka.Graph.Cycles.{IsChain, check_for_cycles-names_cycle}
use zapadka.Graph.Closure.{Needs, ids, closure_of_selects}

abbrev pub migration : Uuid → List Uuid → Migration
migration id depends = record {
  id = id;
  slug = codes "m";
  relative_dir = codes "migrations/m";
  manifest = record {
    format_version = 1;
    id = id;
    depends = depends;
    transaction = required;
    reversibility = irreversible;
    irreversible_reason = some (codes "test");
    allow = [];
  };
  deploy = record {
    role = deploy;
    relative_path = codes "migrations/m/deploy.sql";
    sql = codes "SELECT 1";
    sha256 = [];
  };
  revert = none;
  verify = none;
  definition_sha256 = [];
}

-- Listed out of order on purpose.
abbrev pub diamond : List Migration
diamond =
    migration 4 (3 ∷ 2 ∷ []) ∷ migration 2 (1 ∷ []) ∷ migration 1 [] ∷ migration 3 (1 ∷ []) ∷ []

abbrev pub ring : List Migration
ring = migration 1 [] ∷ migration 2 (1 ∷ 3 ∷ []) ∷ migration 3 (2 ∷ []) ∷ []

abbrev dangling : List Migration
dangling = migration 1 (9 ∷ []) ∷ []

unfoldable pub program : Unit {0}
unfolding collect no_dependents link_one link_all release release_all dependent_ids place sort_loop
    initial_counts initial_ready initial_work topological_sort next_stuck cycle_walk find_cycle
    stuck_ids cycle_of check_for_cycles build heads_of look_up dependents_of deployment_order
    push_all pushed closure_loop total_depends included_from closure_of
program = tt

abbrev pub built : Graph
built = record {
  migrations = project diamond;
  dependents = (1, 2 ∷ 3 ∷ []) ∷ (2, 4 ∷ []) ∷ (3, 4 ∷ []) ∷ (4, []) ∷ [];
}

abbrev built_ring : Graph
built_ring = record {
  migrations = project ring;
  dependents = (1, 2 ∷ []) ∷ (2, 3 ∷ []) ∷ (3, 2 ∷ []) ∷ [];
}

pub build-diamond : build diamond ≡ ok built
unfolding program
build-diamond = refl

sort-diamond : (topological_sort built ≡ 1 ∷ 2 ∷ 3 ∷ 4 ∷ []) × (heads built ≡ 4 ∷ [])
unfolding program
sort-diamond = (refl, refl)

closure-diamond :
    ids (retain (λ (m : Migration). contains (included_from built 2) m.id) (deployment_order built))
    ≡ 1 ∷ 2 ∷ []
unfolding program
closure-diamond = refl

pub diamond-AllDistinct : AllDistinct (project diamond)
unfolding program
diamond-AllDistinct k = ground arith

diamond-AllKnown : AllKnown (project diamond)
unfolding program
diamond-AllKnown k d h = ground arith

diamond-Ranks : Ranks (project diamond) (λ k. k)
unfolding program
diamond-Ranks k d h = ground arith

ring-AllDistinct : AllDistinct (project ring)
unfolding program
ring-AllDistinct k = ground arith

abbrev ring_error : Error
ring_error = cycle_error built_ring (2 ∷ 3 ∷ [])

build-ring : build ring ≡ err ring_error
unfolding program
build-ring = refl

build_accepts_example :
    ((g : Graph) × (build diamond ≡ ok g))
    ↔ (AllKnown (project diamond) × ((rank : Uuid → ℕ) × Ranks (project diamond) rank))
build_accepts_example = build_accepts diamond diamond-AllDistinct

build_refuses_example :
    (¬ AllKnown (project ring)) × (ring_error.code ≡ migration_unknown_dependency)
    ⊎ AllKnown (project ring)
      × ((rank : Uuid → ℕ) → ¬ Ranks (project ring) rank)
      × (ring_error.code ≡ graph_cycle)
build_refuses_example = build_refuses ring ring_error ring-AllDistinct build-ring

topological_sort_unique_example :
    IsSchedule built [] (topological_sort built)
    × ((plan : List Uuid) → IsSchedule built [] plan → plan ≡ topological_sort built)
topological_sort_unique_example =
    topological_sort_unique diamond built diamond-AllDistinct build-diamond

linked-ring :
    link_all (values (collect [] ring)) (no_dependents (keys (collect [] ring)))
    ≡ ok built_ring.dependents
unfolding program
linked-ring = refl

check-ring : check_for_cycles built_ring ≡ err ring_error
unfolding program
check-ring = refl

check_for_cycles-names_cycle_example :
    (x : Uuid) × (rest : List Uuid) × (cycle_of built_ring ≡ x ∷ rest)
    × IsChain built_ring (x ∷ rest ++ x ∷ [])
check_for_cycles-names_cycle_example =
    check_for_cycles-names_cycle built_ring ring_error
      (linked-IsWellFormed ring built_ring.dependents linked-ring) ring-AllDistinct check-ring

is_known : known built 2 ≡ true
unfolding program
is_known = refl

closure_of_selects_example :
    (ms : List Migration) × (closure_of built 2 ≡ ok ms)
    × ((k : Uuid) → (contains (ids ms) k ≡ true) ↔ Needs built 2 k)
    × (ids ms ≡ retain (contains (included_from built 2)) (topological_sort built))
closure_of_selects_example =
    closure_of_selects diamond built 2 diamond-AllDistinct build-diamond is_known

build-dangling :
    build dangling
    ≡ err (at (file (codes "migrations/m/migration.toml")) (new migration_unknown_dependency))
unfolding program
build-dangling = refl
