-- ===== src/Graph/Build.antt =====
-- When `build` succeeds, and with which error it fails.
use mathlib.Core.Path.{subst}
use zapadka.Common.{
  ℕ, suc, ◌<◌, ◌≡◌, true, List, [], ◌∷◌, ◌++◌, ◌==◌, arith, if◌then◌else◌, contains,
  contains-append, IsNodup, contains_key, contains-keys, keys, values, length, Bool-cases, inl, inr,
  sym, ap, ◌⊎◌,
}
use zapadka.Common.Counting.{missing-zero, length-le_of_Within, Within-of_length}
use zapadka.Errors.{ok, >>=-eq-ok}
use zapadka.Manifest.{Uuid}
use zapadka.Migration.{Migration}
use zapadka.Graph.{
  Graph, graph, collect, no_dependents, link_all, build, check_for_cycles, topological_sort,
}
use zapadka.Graph.Facts.{deps, deps_in, known, IsWellFormed, IsDistinct}
use zapadka.Graph.Linking.{linked-IsWellFormed}
use zapadka.Graph.Sorting.{IsOrdered}
use zapadka.Graph.Order.{
  IsRanked, topological_sort-IsOrdered, topological_sort_complete, length-keys,
}

-- The project that a list of migrations describes.
abbrev pub project : List Migration → List (Uuid × Migration)
project list = collect [] list

-- Every dependency of the project is one of its migrations.
abbrev pub AllKnown : List (Uuid × Migration) → Type 0
AllKnown m = (k d : Uuid) → contains (deps_in m k) d ≡ true → contains_key m d ≡ true

-- `rank` puts every dependency below its dependent: there is no cycle.
abbrev pub Ranks : List (Uuid × Migration) → (Uuid → ℕ) → Type 0
Ranks m rank = (k d : Uuid) → contains (deps_in m k) d ≡ true → rank d < rank k

-- No migration of the project names a dependency twice.
abbrev pub AllDistinct : List (Uuid × Migration) → Type 0
AllDistinct m = (k : Uuid) → IsNodup (deps_in m k)

-- A successful `build` linked the edges and passed the check for cycles.
pub build-eq-ok :
    (list : List Migration) (g : Graph)
    → build list ≡ ok g
    → (g.migrations ≡ project list) × IsWellFormed g × (check_for_cycles g ≡ ok tt)
unfolding build
build-eq-ok list g h =
    let m = project list in
    let (dependents, linked, rest) = >>=-eq-ok (link_all (values m) (no_dependents (keys m))) _ h in
    let (_, checked, same) =
      >>=-eq-ok (check_for_cycles (graph m dependents)) (λ _. ok (graph m dependents)) rest in
    let e : graph m dependents ≡ g = cc in
    (
      ap (λ (r : Graph). r.migrations) (sym e),
      subst IsWellFormed e (linked-IsWellFormed list dependents linked),
      subst (λ r. check_for_cycles r ≡ ok tt) e checked,
    )

module _ (g : Graph) (formed : IsWellFormed g) (separate : IsDistinct g) where
  -- The check passes only if the sort places every migration.
  pub checked_complete :
      check_for_cycles g ≡ ok tt → (k : Uuid) → contains (topological_sort g) k ≡ known g k
  unfolding check_for_cycles
  checked_complete h k =
      let (_, distinct, inside) = topological_sort-IsOrdered g formed separate in
      let full : length (topological_sort g) ≡ length g.migrations = ground arith in
      ground (
        arith,
        inside k,
        contains-keys g.migrations k,
        Within-of_length (topological_sort g) (keys g.migrations) distinct inside
            (omega (arith, length-keys g.migrations)) k,
      )

  pub ranked_checks : (rank : Uuid → ℕ) → IsRanked g rank → check_for_cycles g ≡ ok tt
  unfolding check_for_cycles
  ranked_checks rank ranked =
      let (_, distinct, inside) = topological_sort-IsOrdered g formed separate in
      ground (
        arith,
        length-keys g.migrations,
        length-le_of_Within (topological_sort g) (keys g.migrations) distinct inside,
        length-le_of_Within (keys g.migrations) (topological_sort g) formed.keys_distinct (λ b m.
            topological_sort_complete g formed separate rank ranked b
              (ground (arith, contains-keys g.migrations b))),
      )

-- The place of a member in a list.
abbrev pub index : List Uuid → Uuid → ℕ
index [] k = 0
index (x ∷ xs) k = if x == k then 0 else suc (index xs k)

-- In an ordered list a dependency was seen, or stands at a smaller index.
pub IsOrdered-index :
    (g : Graph) (seen ks : List Uuid) (k d : Uuid)
    → IsOrdered g seen ks
    → contains ks k ≡ true
    → contains (deps g k) d ≡ true
    → (contains seen d ≡ true) ⊎ (index ks d < index ks k)
IsOrdered-index g seen [] k d h m e = cc
IsOrdered-index g seen (x ∷ ks) k d h m e = elim (Bool-cases (x == k)) [
  | inl here ↦ inl (missing-zero seen (deps g k) (ground arith) d e)
  | inr there ↦ elim (IsOrdered-index g (seen ++ x ∷ []) ks k d h.1 (ground arith) e) [
    | inl before ↦ ground (arith, contains-append seen (x ∷ []) d)
    | inr less ↦ inr (ground arith)
  ]
]
