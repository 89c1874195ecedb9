-- ===== src/Graph/Order.antt =====
-- What the topological sort returns: every dependency first, nothing twice, and all of it exactly
-- when the dependencies have no cycle.
use mathlib.Core.Path.{subst}
use zapadka.Common.{
  sym, ℕ, zero, suc, ◌+◌, ◌<◌, ◌≡◌, ◌≢◌, refl, Bool, true, false, List, [], ◌∷◌, ◌++◌, Option, none,
  some, ◌==◌, arith, contains, IsNodup, get, length, length-append, keys, List-cases, inl, inr,
  contains-keys, contains-add, Bool-cases, IsSorted, IsSorted-add,
}
use zapadka.Common.Counting.{missing, missing-witness, Within-of_length, Within}
use zapadka.Manifest.{Uuid}
use zapadka.Migration.{Migration, depends}
use zapadka.Graph.{
  Graph, Work, place, sort_loop, initial_work, initial_counts, initial_ready, topological_sort,
}
use zapadka.Graph.Facts.{deps, known, IsWellFormed, IsDistinct}
use zapadka.Graph.Sorting.{Inv, IsOrdered, IsGreedy, Inv-place, next_facts}

missing-nil : (xs : List Uuid) → missing [] xs ≡ length xs
missing-nil [] = refl
missing-nil (x ∷ xs) = omega (arith, missing-nil xs)

get-initial_counts :
    (ms : List (Uuid × Migration)) (k : Uuid)
    → get (initial_counts ms) k
      ≡ elim (get ms k) [ none ↦ none | some m ↦ some (length (depends m)) ]
unfolding initial_counts
get-initial_counts [] k = refl
get-initial_counts ((id, m) ∷ ms) k = ground (arith, get-initial_counts ms k)

keys-initial_counts : (ms : List (Uuid × Migration)) → keys (initial_counts ms) ≡ keys ms
unfolding initial_counts
keys-initial_counts [] = refl
keys-initial_counts ((id, m) ∷ ms) = ground (arith, keys-initial_counts ms)

pub length-keys : (ms : List (Uuid × Migration)) → length (keys ms) ≡ length ms
length-keys [] = refl
length-keys ((id, m) ∷ ms) = omega (arith, length-keys ms)

abbrev is_zero_count : Option ℕ → Bool
is_zero_count none = false
is_zero_count (some n) = n == 0

contains-initial_ready :
    (l : List (Uuid × ℕ)) (k : Uuid)
    → IsNodup (keys l)
    → contains (initial_ready l) k ≡ is_zero_count (get l k)
unfolding initial_ready
contains-initial_ready [] k h = refl
contains-initial_ready ((id, n) ∷ l) k h = ground (
  arith,
  contains-initial_ready l k,
  contains-add id (initial_ready l) k,
  contains-keys l k,
  contains-keys l id,
)

IsSorted-initial_ready : (l : List (Uuid × ℕ)) → IsSorted (initial_ready l)
unfolding initial_ready
IsSorted-initial_ready [] = tt
IsSorted-initial_ready ((id, n) ∷ l) =
    ground (arith, IsSorted-initial_ready l, IsSorted-add id (initial_ready l))

module _ (g : Graph) (formed : IsWellFormed g) (separate : IsDistinct g) where
  open formed use {keys_distinct, deps_known}

  Inv-initial : Inv g (initial_work g) []
  unfolding initial_work
  Inv-initial = record {
    counts = λ k. ground (arith, get-initial_counts g.migrations k, missing-nil (deps g k));
    ready_iff = λ k. ground (
      arith,
      get-initial_counts g.migrations k,
      missing-nil (deps g k),
      contains-initial_ready (initial_counts g.migrations) k
          (rw (keys-initial_counts g.migrations) keys_distinct),
    );
    ready_sorted = IsSorted-initial_ready (initial_counts g.migrations);
    distinct = tt;
    placed_known = λ b m. cc;
    ordered = tt;
    greedy = tt;
  }

  sort_loop_stops :
      (fuel : ℕ) (w : Work) (order : List Uuid)
      → w.ready ≡ []
      → sort_loop (suc fuel) g w order ≡ order
  unfolding sort_loop
  sort_loop_stops fuel w order empty = rw (empty, sort_loop)

  -- With room for all migrations the loop ends because nothing is ready.
  sort_loop_ends :
      (fuel : ℕ) (w : Work) (order : List Uuid)
      → Inv g w order
      → fuel + length order ≡ length (keys g.migrations)
      → (w' : Work) × Inv g w' (sort_loop fuel g w order) × (w'.ready ≡ [])
  unfolding sort_loop
  sort_loop_ends zero w order inv room = elim (List-cases w.ready) [
    | inl empty ↦ (w, inv, empty)
    | inr (next, rest, e) ↦
        let (waits, _) = next_facts g formed separate w order inv next rest e in
        let full =
          Within-of_length order (keys g.migrations) inv.distinct inv.placed_known (omega arith)
            next in
        absurd (ground (arith, waits, full, contains-keys g.migrations next))
  ]
  sort_loop_ends (suc fuel) w order inv room = elim (List-cases w.ready) [
    | inl empty ↦ (w, subst (Inv g w) (sym (sort_loop_stops fuel w order empty)) inv, empty)
    | inr (next, rest, e) ↦
        rw (e, sort_loop)
          (sort_loop_ends fuel (place g w next) (order ++ next ∷ [])
            (Inv-place g formed separate w order inv next rest e)
            (omega (arith, length-append order (next ∷ []))))
  ]

  pub sort_ends : (w : Work) × Inv g w (topological_sort g) × (w.ready ≡ [])
  unfolding topological_sort
  sort_ends =
      sort_loop_ends (length g.migrations) (initial_work g) [] Inv-initial
        (omega (arith, length-keys g.migrations))

  -- Every listed migration stands behind all of its dependencies, and none is listed twice.
  pub topological_sort-IsOrdered :
      IsOrdered g [] (topological_sort g)
      × IsNodup (topological_sort g)
      × Within (topological_sort g) (keys g.migrations)
  topological_sort-IsOrdered =
      let (w, inv, _) = sort_ends in (inv.ordered, inv.distinct, inv.placed_known)

  -- At each place the smallest identity that could stand there stands.
  pub topological_sort-IsGreedy : IsGreedy g [] (topological_sort g)
  topological_sort-IsGreedy = let (w, inv, _) = sort_ends in inv.greedy

  -- A migration that is left over waits for one that is left over too.
  pub left_over :
      (k : Uuid)
      → known g k ≡ true
      → contains (topological_sort g) k ≡ false
      → (d : Uuid) × (contains (deps g k) d ≡ true)
        × (known g d ≡ true)
        × (contains (topological_sort g) d ≡ false)
  left_over k is_known out =
      let (w, inv, empty) = sort_ends in
      let (d, m, n) =
        missing-witness (topological_sort g) (deps g k) (λ e. not_ready w inv empty e) in
      (d, m, deps_known k d m, n)
    where
      not_ready :
          (w : Work)
          → Inv g w (topological_sort g)
          → w.ready ≡ []
          → missing (topological_sort g) (deps g k) ≢ 0
      not_ready w inv empty e =
          let out_of_empty : contains w.ready k ≡ false = rw empty refl in
          ground (arith, inv.ready_iff k)

-- `rank` puts every dependency below its dependent, so the dependencies have no cycle.
abbrev pub IsRanked : Graph → (Uuid → ℕ) → Type 0
IsRanked g rank = (k d : Uuid) → contains (deps g k) d ≡ true → rank d < rank k

module _ (g : Graph) (formed : IsWellFormed g) (separate : IsDistinct g) where
  all_below :
      (rank : Uuid → ℕ)
      → IsRanked g rank
      → (bound : ℕ) (k : Uuid) → rank k < bound
      → known g k ≡ true
      → contains (topological_sort g) k ≡ true
  all_below rank ranked zero k h is_known = absurd (omega arith)
  all_below rank ranked (suc bound) k h is_known =
      elim (Bool-cases (contains (topological_sort g) k)) [
        | inl placed ↦ placed
        | inr out ↦
            let (d, edge, d_known, d_out) = left_over g formed separate k is_known out in
            let below = ranked k d edge in
            let placed = all_below rank ranked bound d (omega arith) d_known in cc
      ]

  -- If the dependencies have no cycle, the sort places every migration.
  pub topological_sort_complete :
      (rank : Uuid → ℕ)
      → IsRanked g rank
      → (k : Uuid) → known g k ≡ true
      → contains (topological_sort g) k ≡ true
  topological_sort_complete rank ranked k is_known =
      all_below rank ranked (suc (rank k)) k (omega arith) is_known
