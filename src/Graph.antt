-- ===== src/Graph.antt =====
-- crates/zapadka-core/src/graph.rs: the migration dependency graph.
-- `BTreeMap` and `BTreeSet` are lists in increasing order of identity (Common/Maps, Common/Sets).
pub mod Facts
pub mod Linking
mod Release
pub mod Sorting
pub mod Order
pub mod Build
pub mod Accepts
pub mod Unique
pub mod Closure
pub mod Examples
pub mod Cycles
use zapadka.Common.{
  ℕ, zero, suc, ◌+◌, ◌-◌, ◌^◌, ◌≡◌, Bool, true, false, not, ◌&&◌, ◌||◌, List, [], ◌∷◌, ◌++◌, map,
  Option, none, some, ◌==◌, if◌then◌else◌, length, contains, add, delete, set_of, insert, get,
  contains_key, remove, keys, values, retain, leb, is_empty, is_some, Text,
}
use zapadka.Common.Sort.{sort}
use zapadka.Errors.{
  Error, Result, ok, err, new, at, file, ◌>>=◌, ◌>>◌, migration_unknown_dependency, graph_cycle,
}
use zapadka.Manifest.{Uuid}
use zapadka.Migration.{Migration, depends, manifest_path}

pub record Graph : Type 0 where
  pub migrations : List (Uuid × Migration)
  pub dependents : List (Uuid × List Uuid)

-- `collect` of `(migration.id, migration)` into the map; a later migration replaces an earlier one.
unfoldable pub collect : List (Uuid × Migration) → List Migration → List (Uuid × Migration)
collect m [] = m
collect m (x ∷ xs) = collect (insert x.id x m) xs

-- `keys().map(|id| (*id, BTreeSet::new())).collect()`.
unfoldable pub no_dependents : List Uuid → List (Uuid × List Uuid)
no_dependents [] = []
no_dependents (id ∷ ids) = (id, []) ∷ no_dependents ids

-- The inner loop of `build`, over the dependencies of one migration.
unfoldable pub link_one :
    Migration → List Uuid → List (Uuid × List Uuid) → Result (List (Uuid × List Uuid))
link_one m [] dependents = ok dependents
link_one m (d ∷ rest) dependents = elim (get dependents d) [
  | none ↦ err (at (file (manifest_path m)) (new migration_unknown_dependency))
  | some s ↦ link_one m rest (insert d (add m.id s) dependents)
]

-- The outer loop, over the migrations in order of identity.
unfoldable pub link_all :
    List Migration → List (Uuid × List Uuid) → Result (List (Uuid × List Uuid))
link_all [] dependents = ok dependents
link_all (m ∷ rest) dependents = link_one m (depends m) dependents >>= link_all rest

-- `*count -= 1` on a `usize`: below zero it wraps around.
unfoldable pub decrement : ℕ → ℕ
decrement zero = 2 ^ 64 - 1
decrement (suc n) = n

-- `remaining` and `ready` of the sort.
pub record Work : Type 0 where
  pub remaining : List (Uuid × ℕ)
  pub ready : List Uuid

-- The body of the loop over the dependents of the migration that was placed.
unfoldable pub release : Work → Uuid → Work
unfolding decrement
release w d = elim (get w.remaining d) [
  | none ↦ w
  | some n ↦ record {
    remaining = insert d (decrement n) w.remaining;
    ready = if decrement n == 0 then add d w.ready else w.ready;
  }
]

unfoldable pub release_all : Work → List Uuid → Work
release_all w [] = w
release_all w (d ∷ ds) = release_all (release w d) ds

-- `self.dependents.get(&id).into_iter().flatten()`.
unfoldable pub dependent_ids : Graph → Uuid → List Uuid
dependent_ids g id = elim (get g.dependents id) [ none ↦ [] | some s ↦ s ]

-- One round of the `while` loop: `next` leaves the sets and its dependents are told.
unfoldable pub place : Graph → Work → Uuid → Work
place g w next =
    release_all (record { remaining = remove next w.remaining; ready = delete next w.ready })
      (dependent_ids g next)

-- The `while` loop, with fuel for one round for each migration.
unfoldable pub sort_loop : ℕ → Graph → Work → List Uuid → List Uuid
sort_loop zero g w order = order
sort_loop (suc fuel) g w order = elim w.ready [
  | [] ↦ order
  | next ∷ _ ↦ sort_loop fuel g (place g w next) (order ++ next ∷ [])
]

unfoldable pub initial_counts : List (Uuid × Migration) → List (Uuid × ℕ)
initial_counts [] = []
initial_counts ((id, m) ∷ rest) = (id, length (depends m)) ∷ initial_counts rest

unfoldable pub initial_ready : List (Uuid × ℕ) → List Uuid
initial_ready [] = []
initial_ready ((id, n) ∷ rest) =
    let more = initial_ready rest in if n == 0 then add id more else more

unfoldable pub initial_work : Graph → Work
initial_work g = record {
  remaining = initial_counts g.migrations;
  ready = initial_ready (initial_counts g.migrations);
}

-- `topological_sort`.
unfoldable pub topological_sort : Graph → List Uuid
topological_sort g = sort_loop (length g.migrations) g (initial_work g) []

-- `find_cycle`, from `current`. The set `on_path` holds the members of `path`. Each round adds one
-- of the stuck migrations to the path, so fuel for one more round than there are is enough.
abbrev pub position_of : List Uuid → Uuid → Option (List Uuid)
position_of [] id = none
position_of (x ∷ xs) id = if x == id then some (x ∷ xs) else position_of xs id

abbrev pub find_id : (Uuid → Bool) → List Uuid → Option Uuid
find_id p [] = none
find_id p (x ∷ xs) = if p x then some x else find_id p xs

-- The dependency that the walk goes to: the first one that is stuck too.
unfoldable pub next_stuck : Graph → List Uuid → Uuid → Option Uuid
next_stuck g stuck id = elim (get g.migrations id) [
  | none ↦ none
  | some m ↦ find_id (contains stuck) (depends m)
]

unfoldable pub cycle_walk : ℕ → Graph → List Uuid → List Uuid → Uuid → Option (List Uuid)
cycle_walk zero g stuck path current = none
cycle_walk (suc fuel) g stuck path current = elim (contains path current) [
  | true ↦ position_of path current
  | false ↦ elim (next_stuck g stuck current) [
    | none ↦ none
    | some next ↦ cycle_walk fuel g stuck (path ++ current ∷ []) next
  ]
]

unfoldable pub find_cycle : Graph → List Uuid → Option (List Uuid)
find_cycle g [] = none
find_cycle g (start ∷ rest) = cycle_walk (suc (length (start ∷ rest))) g (start ∷ rest) [] start

-- The migrations that the sort did not place.
unfoldable pub stuck_ids : Graph → List Uuid
stuck_ids g = retain (λ id. not (contains (topological_sort g) id)) (keys g.migrations)

-- `find_cycle(&stuck).unwrap_or_else(…)`.
unfoldable pub cycle_of : Graph → List Uuid
cycle_of g = elim (find_cycle g (stuck_ids g)) [ none ↦ stuck_ids g | some cycle ↦ cycle ]

-- The error for a cycle, at the manifest of the cycle's first migration.
abbrev pub cycle_error : Graph → List Uuid → Error
cycle_error g [] = new graph_cycle
cycle_error g (id ∷ _) = elim (get g.migrations id) [
  | none ↦ new graph_cycle
  | some m ↦ at (file (manifest_path m)) (new graph_cycle)
]

-- `check_for_cycles`.
unfoldable pub check_for_cycles : Graph → Result (Unit {0})
check_for_cycles g =
    if length (topological_sort g) == length g.migrations
    then ok tt
    else err (cycle_error g (cycle_of g))

abbrev pub graph : List (Uuid × Migration) → List (Uuid × List Uuid) → Graph
graph migrations dependents = record { migrations = migrations; dependents = dependents }

-- `Graph::build`.
unfoldable pub build : List Migration → Result Graph
build list = do
  let migrations = collect [] list
  dependents ← link_all (values migrations) (no_dependents (keys migrations))
  let g = graph migrations dependents
  check_for_cycles g
  ok g

-- `heads`: the migrations that nothing depends on, in order of identity.
unfoldable pub heads_of : List (Uuid × List Uuid) → List Uuid
heads_of [] = []
heads_of ((id, s) ∷ rest) = let more = heads_of rest in if is_empty s then id ∷ more else more

abbrev pub heads : Graph → List Uuid
heads g = sort leb (heads_of g.dependents)

-- `filter_map(|id| self.migrations.get(id))`.
unfoldable pub look_up : Graph → List Uuid → List Migration
look_up g [] = []
look_up g (id ∷ ids) =
    let rest = look_up g ids in elim (get g.migrations id) [ none ↦ rest | some m ↦ m ∷ rest ]

-- `dependents_of` and `deployment_order`.
unfoldable pub dependents_of : Graph → Uuid → List Migration
dependents_of g id = look_up g (dependent_ids g id)

unfoldable pub deployment_order : Graph → List Migration
deployment_order g = look_up g (topological_sort g)

-- `stack.extend(…)`: the last one pushed is the first one popped.
unfoldable pub push_all : List Uuid → List Uuid → List Uuid
push_all stack [] = stack
push_all stack (d ∷ ds) = push_all (d ∷ stack) ds

-- What the walk of `closure_of` pushes for one migration.
unfoldable pub pushed : Graph → Uuid → List Uuid
pushed g id = elim (get g.migrations id) [ none ↦ [] | some m ↦ depends m ]

-- The `while` loop of `closure_of`, over `included` and `stack`.
unfoldable pub closure_loop : ℕ → Graph → List Uuid → List Uuid → List Uuid
closure_loop zero g included stack = included
closure_loop (suc fuel) g included [] = included
closure_loop (suc fuel) g included (current ∷ stack) = elim (contains included current) [
  | true ↦ closure_loop fuel g included stack
  | false ↦ closure_loop fuel g (add current included) (push_all stack (pushed g current))
]

-- Each round pops one identity, and no more are pushed than there are dependencies in the project.
unfoldable pub total_depends : List (Uuid × Migration) → ℕ
total_depends [] = 0
total_depends ((id, m) ∷ rest) = length (depends m) + total_depends rest

unfoldable pub included_from : Graph → Uuid → List Uuid
included_from g id = closure_loop (suc (total_depends g.migrations)) g [] (id ∷ [])

-- `closure_of`.
unfoldable pub closure_of : Graph → Uuid → Result (List Migration)
closure_of g id = elim (get g.migrations id) [
  | none ↦ err (new migration_unknown_dependency)
  | some target ↦
      ok
        (retain (λ (m : Migration). contains (included_from g target.id) m.id) (deployment_order g))
]
