-- ===== src/Graph/Facts.antt =====
-- The dependencies of an identity, and when a graph is well formed.
use zapadka.Common.{
  ◌≡◌, Bool, true, ◌&&◌, List, [], none, some, contains, contains_key, get, keys, IsNodup,
}
use zapadka.Manifest.{Uuid}
use zapadka.Migration.{Migration, depends}
use zapadka.Graph.{Graph, dependent_ids}

-- What a migration of the project depends on; nothing for an identity that is not in it.
abbrev pub deps_in : List (Uuid × Migration) → Uuid → List Uuid
deps_in m id = elim (get m id) [ none ↦ [] | some x ↦ depends x ]

abbrev pub deps : Graph → Uuid → List Uuid
deps g id = deps_in g.migrations id

-- The identity is one of the project's.
abbrev pub known : Graph → Uuid → Bool
known g id = contains_key g.migrations id

-- `dependents` turns the edges round, every edge ends in the project, and no set repeats a member.
pub record IsWellFormed (g : Graph) : Type 0 where
  pub keys_distinct : IsNodup (keys g.migrations)
  pub linked : (k d : Uuid) → contains (dependent_ids g d) k ≡ (known g k && contains (deps g k) d)
  pub dependents_distinct : (d : Uuid) → IsNodup (dependent_ids g d)
  pub keyed : (k : Uuid) (m : Migration) → get g.migrations k ≡ some m → m.id ≡ k
  pub deps_known : (k d : Uuid) → contains (deps g k) d ≡ true → known g d ≡ true

-- No migration names a dependency twice: `Manifest::validate` refuses one that does.
abbrev pub IsDistinct : Graph → Type 0
IsDistinct g = (k : Uuid) → IsNodup (deps g k)
