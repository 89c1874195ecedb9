-- ===== src/Graph/Cycles.antt =====
-- The cycle that the error names is one.
use zapadka.Common.{
  ℕ, zero, suc, ◌+◌, ◌≡◌, ◌≢◌, refl, Bool, true, false, not, ◌&&◌, List, [], ◌∷◌, ◌++◌, Option,
  none, some, ◌==◌, arith, contains, contains-append, IsNodup, IsNodup-concat, get, keys, retain,
  length, length-append, Bool-cases, Option-cases, inl, inr, contains-keys, ap,
}
use mathlib.Core.Path.{subst}
use zapadka.Common.Counting.{Within, length-le_of_Within}
use zapadka.Errors.{Error, err}
use zapadka.Manifest.{Uuid}
use zapadka.Migration.{depends}
use zapadka.Graph.{
  Graph, position_of, find_id, next_stuck, cycle_walk, find_cycle, stuck_ids, cycle_of,
  check_for_cycles, topological_sort,
}
use zapadka.Graph.Facts.{deps, IsWellFormed, IsDistinct}
use zapadka.Graph.Order.{left_over, topological_sort-IsOrdered, length-keys}

-- Each member of the list depends on the next.
abbrev pub IsChain : Graph → List Uuid → Type 0
IsChain g [] = Unit
IsChain g (x ∷ []) = Unit
IsChain g (x ∷ y ∷ ks) = (contains (deps g x) y ≡ true) × IsChain g (y ∷ ks)

find_id-eq-some :
    (p : Uuid → Bool) (xs : List Uuid) (d : Uuid)
    → find_id p xs ≡ some d
    → (contains xs d ≡ true) × (p d ≡ true)
find_id-eq-some p [] d h = cc
find_id-eq-some p (x ∷ xs) d h = ground (arith, find_id-eq-some p xs d)

find_id-eq-none :
    (p : Uuid → Bool) (xs : List Uuid) (d : Uuid)
    → find_id p xs ≡ none
    → contains xs d ≡ true
    → p d ≡ false
find_id-eq-none p [] d h m = cc
find_id-eq-none p (x ∷ xs) d h m = ground (arith, find_id-eq-none p xs d)

module _ (g : Graph) where
  IsChain-concat :
      (path : List Uuid) (c d : Uuid)
      → IsChain g (path ++ c ∷ [])
      → contains (deps g c) d ≡ true
      → IsChain g ((path ++ c ∷ []) ++ d ∷ [])
  IsChain-concat [] c d h e = (e, tt)
  IsChain-concat (x ∷ []) c d h e = (h.0, (e, tt))
  IsChain-concat (x ∷ y ∷ path) c d h e = (h.0, IsChain-concat (y ∷ path) c d h.1 e)

  IsChain-tail : (x : Uuid) (ks : List Uuid) → IsChain g (x ∷ ks) → IsChain g ks
  IsChain-tail x [] h = tt
  IsChain-tail x (y ∷ ks) h = h.1

  -- A path that comes back to a member is a cycle from that member on.
  position_of-IsChain :
      (path : List Uuid) (c : Uuid)
      → contains path c ≡ true
      → IsChain g (path ++ c ∷ [])
      → (rest : List Uuid) × (position_of path c ≡ some (c ∷ rest)) × IsChain g (c ∷ rest ++ c ∷ [])
  position_of-IsChain [] c m h = cc
  position_of-IsChain (x ∷ path) c m h = elim (Bool-cases (x == c)) [
    | inl here ↦
        let e : x ≡ c = ground arith in
        (path, ground arith, subst (λ z. IsChain g (z ∷ path ++ c ∷ [])) e h)
    | inr there ↦
        let (rest, found, chain) =
          position_of-IsChain path c (ground arith) (IsChain-tail x (path ++ c ∷ []) h) in
        (rest, ground arith, chain)
  ]

  next_stuck-eq-some :
      (stuck : List Uuid) (c d : Uuid)
      → next_stuck g stuck c ≡ some d
      → (contains (deps g c) d ≡ true) × (contains stuck d ≡ true)
  unfolding next_stuck
  next_stuck-eq-some stuck c d h = elim (Option-cases (get g.migrations c)) [
    | inl e ↦ ground arith
    | inr (m, e) ↦ ground (arith, find_id-eq-some (contains stuck) (depends m) d)
  ]

  next_stuck-ne-none :
      (stuck : List Uuid) (c d : Uuid)
      → contains (deps g c) d ≡ true
      → contains stuck d ≡ true
      → next_stuck g stuck c ≢ none
  unfolding next_stuck
  next_stuck-ne-none stuck c d m s h = elim (Option-cases (get g.migrations c)) [
    | inl e ↦ ground arith
    | inr (x, e) ↦ ground (arith, find_id-eq-none (contains stuck) (depends x) d)
  ]

-- Every member depends on another.
abbrev IsStuck : Graph → List Uuid → Type 0
IsStuck g stuck =
    (k : Uuid)
    → contains stuck k ≡ true
    → (d : Uuid) × (contains (deps g k) d ≡ true) × (contains stuck d ≡ true)

IsCycleOf : Graph → Option (List Uuid) → Type 0
IsCycleOf g c =
    (x : Uuid) × (rest : List Uuid) × (c ≡ some (x ∷ rest)) × IsChain g (x ∷ rest ++ x ∷ [])

module _ (g : Graph) (stuck : List Uuid) (all_stuck : IsStuck g stuck) where
  cycle_walk-finds :
      (fuel : ℕ) (path : List Uuid) (current : Uuid)
      → fuel + length path ≡ suc (length stuck)
      → IsNodup path
      → Within path stuck
      → contains stuck current ≡ true
      → IsChain g (path ++ current ∷ [])
      → IsCycleOf g (cycle_walk fuel g stuck path current)
  unfolding cycle_walk IsCycleOf
  cycle_walk-finds zero path current room once inside is_in chain =
      absurd (omega (arith, length-le_of_Within path stuck once inside))
  cycle_walk-finds (suc fuel) path current room once inside is_in chain =
      elim (Bool-cases (contains path current)) [
        | inl back ↦
            let (rest, found, loop) = position_of-IsChain g path current back chain in
            (current, rest, rw (back, cycle_walk) found, loop)
        | inr fresh ↦ elim (Option-cases (next_stuck g stuck current)) [
          | inl stop ↦
              let (d, edge, d_in) = all_stuck current is_in in
              absurd (next_stuck-ne-none g stuck current d edge d_in stop)
          | inr (d, go) ↦
              let (edge, d_in) = next_stuck-eq-some g stuck current d go in
              let (x, rest, found, loop) =
                cycle_walk-finds fuel (path ++ current ∷ []) d
                  (omega (arith, length-append path (current ∷ [])))
                  (IsNodup-concat path current once fresh)
                  (λ b m. ground (arith, contains-append path (current ∷ []) b, inside b)) d_in
                  (IsChain-concat g path current d chain edge) in
              (x, rest, rw (fresh, go, cycle_walk) found, loop)
        ]
      ]

contains-retain :
    (p : Uuid → Bool) (xs : List Uuid) (k : Uuid)
    → contains (retain p xs) k ≡ (contains xs k && p k)
contains-retain p [] k = refl
contains-retain p (x ∷ xs) k = elim (Bool-cases (x == k)) [
  | inl here ↦ let e : x ≡ k = ground arith in ground (arith, contains-retain p xs k, ap p e)
  | inr there ↦ ground (arith, contains-retain p xs k)
]

find_cycle-finds :
    (g : Graph) (stuck : List Uuid)
    → IsStuck g stuck
    → stuck ≢ []
    → IsCycleOf g (find_cycle g stuck)
unfolding find_cycle
find_cycle-finds g [] all_stuck some_stuck = absurd (some_stuck refl)
find_cycle-finds g (x ∷ xs) all_stuck some_stuck =
    cycle_walk-finds g (x ∷ xs) all_stuck (suc (length (x ∷ xs))) [] x (omega arith) tt (λ b m. cc)
      (ground arith) tt

module _ (g : Graph) (formed : IsWellFormed g) (separate : IsDistinct g) where
  stuck_ids-IsStuck : IsStuck g (stuck_ids g)
  unfolding stuck_ids
  stuck_ids-IsStuck k m =
      let test = λ (id : Uuid). not (contains (topological_sort g) id) in
      let is_stuck = contains-retain test (keys g.migrations) k in
      let (d, edge, d_known, d_out) =
        left_over g formed separate k (ground (arith, contains-keys g.migrations k))
          (ground arith) in
      (
        d,
        edge,
        ground (arith, contains-retain test (keys g.migrations) d, contains-keys g.migrations d),
      )

  -- If the check fails, something is stuck: else the sort would hold every key.
  stuck_ids-ne-nil : (e : Error) → check_for_cycles g ≡ err e → stuck_ids g ≢ []
  unfolding stuck_ids check_for_cycles
  stuck_ids-ne-nil e h empty =
      let test = λ (id : Uuid). not (contains (topological_sort g) id) in
      let (_, once, inside) = topological_sort-IsOrdered g formed separate in
      let all : Within (keys g.migrations) (topological_sort g) = λ b m. ground (
        arith,
        contains-retain test (keys g.migrations) b,
        ap (λ (l : List Uuid). contains l b) empty,
      ) in
      ground (
        arith,
        length-keys g.migrations,
        length-le_of_Within (topological_sort g) (keys g.migrations) once inside,
        length-le_of_Within (keys g.migrations) (topological_sort g) formed.keys_distinct all,
      )

-- When the check for cycles fails on a well-formed graph in which no migration lists a dependency
-- twice, the migrations that its error names form a cycle: each depends on the next, and the last
-- on the first. The search for it never runs out of fuel.
pub check_for_cycles-names_cycle :
    (g : Graph) (e : Error)
    → IsWellFormed g
    → IsDistinct g
    → check_for_cycles g ≡ err e
    → (x : Uuid) × (rest : List Uuid) × (cycle_of g ≡ x ∷ rest) × IsChain g (x ∷ rest ++ x ∷ [])
unfolding cycle_of IsCycleOf
check_for_cycles-names_cycle g e formed separate h =
    let (x, rest, found, chain) =
      find_cycle-finds g (stuck_ids g) (stuck_ids-IsStuck g formed separate)
        (stuck_ids-ne-nil g formed separate e h) in
    (x, rest, ground arith, chain)
