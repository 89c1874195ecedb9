-- ===== src/Graph/Sorting.antt =====
-- The invariant of the sort: what `remaining` and `ready` hold while `order` has been placed.
use zapadka.Common.{
  append-nil, ◌∙◌, head-le, IsSorted, IsSorted-delete, append_assoc, ◌≤◌, ◌≡◌, Bool, true, not,
  ◌&&◌, List, [], ◌∷◌, ◌++◌, none, some, ◌==◌, arith, if◌then◌else◌, contains, contains-append,
  IsNodup, IsNodup-concat, get, remove, get-remove, delete, contains-delete, keys, contains-keys,
}
use zapadka.Common.Counting.{missing, missing-concat, Within}
use zapadka.Manifest.{Uuid}
use zapadka.Graph.{Graph, Work, place, dependent_ids, decrement}
use zapadka.Graph.Facts.{deps, known, IsWellFormed, IsDistinct}
use zapadka.Graph.Release.{get-release_all, contains-release_all, IsSorted-release_all}

-- Each migration's dependencies stand before it, behind those in `seen`.
abbrev pub IsOrdered : Graph → List Uuid → List Uuid → Type 0
IsOrdered g seen [] = Unit
IsOrdered g seen (k ∷ ks) = (missing seen (deps g k) ≡ 0) × IsOrdered g (seen ++ k ∷ []) ks

IsOrdered-concat :
    (g : Graph) (seen ks : List Uuid) (k : Uuid)
    → IsOrdered g seen ks
    → missing (seen ++ ks) (deps g k) ≡ 0
    → IsOrdered g seen (ks ++ k ∷ [])
IsOrdered-concat g seen [] k h e = (rw append-nil at e, tt)
IsOrdered-concat g seen (x ∷ ks) k h e =
    (h.0, IsOrdered-concat g (seen ++ x ∷ []) ks k h.1 (rw append_assoc e))

-- A migration that is not placed waits for the dependencies that are not placed.
abbrev pub waiting : Graph → List Uuid → Uuid → Bool
waiting g order k = known g k && not (contains order k)

-- The migration could go next: it is not placed yet, and its dependencies are.
abbrev pub could_go : Graph → List Uuid → Uuid → Bool
could_go g seen j = waiting g seen j && missing seen (deps g j) == 0

-- At each place stands the smallest of the migrations that could go next.
abbrev pub IsGreedy : Graph → List Uuid → List Uuid → Type 0
IsGreedy g seen [] = Unit
IsGreedy g seen (k ∷ ks) =
    ((j : Uuid) → could_go g seen j ≡ true → k ≤ j) × IsGreedy g (seen ++ k ∷ []) ks

IsGreedy-concat :
    (g : Graph) (seen ks : List Uuid) (k : Uuid)
    → IsGreedy g seen ks
    → ((j : Uuid) → could_go g (seen ++ ks) j ≡ true → k ≤ j)
    → IsGreedy g seen (ks ++ k ∷ [])
IsGreedy-concat g seen [] k h e = (λ j c. e j (rw append-nil c), tt)
IsGreedy-concat g seen (x ∷ ks) k h e =
    (h.0, IsGreedy-concat g (seen ++ x ∷ []) ks k h.1 (λ j c. e j (rw append_assoc at c)))

pub record Inv (g : Graph) (w : Work) (order : List Uuid) : Type 0 where
  pub counts :
      (k : Uuid)
      → get w.remaining k ≡ (if waiting g order k then some (missing order (deps g k)) else none)
  pub ready_iff :
      (k : Uuid) → contains w.ready k ≡ (waiting g order k && missing order (deps g k) == 0)
  pub ready_sorted : IsSorted w.ready
  pub distinct : IsNodup order
  pub placed_known : Within order (keys g.migrations)
  pub ordered : IsOrdered g [] order
  pub greedy : IsGreedy g [] order

module _ (g : Graph) (formed : IsWellFormed g) (separate : IsDistinct g) where
  open formed use {linked, dependents_distinct, keys_distinct}

  module _ (w : Work) (order : List Uuid) (inv : Inv g w order) (next : Uuid) (rest : List Uuid)
      (first : w.ready ≡ next ∷ rest) where
    is_ready : contains w.ready next ≡ true
    is_ready = rw first (ground arith)

    is_smallest : (j : Uuid) → could_go g order j ≡ true → next ≤ j
    is_smallest j c =
        head-le next rest j (rw first at inv.ready_sorted) (rw first at (inv.ready_iff j ∙ c))

    abbrev taken : Work
    taken = record { remaining = remove next w.remaining; ready = delete next w.ready }

    pub next_facts : (waiting g order next ≡ true) × (missing order (deps g next) ≡ 0)
    next_facts = ground (arith, inv.ready_iff next, is_ready)

    counts-place :
        (k : Uuid)
        → get (place g w next).remaining k ≡ (
            if waiting g (order ++ next ∷ []) k
            then some (missing (order ++ next ∷ []) (deps g k))
            else none)
    unfolding place decrement
    counts-place k = ground (
      arith,
      get-release_all (dependent_ids g next) taken k (dependents_distinct next),
      get-remove next w.remaining k,
      inv.counts k,
      contains-append order (next ∷ []) k,
      linked k next,
      missing-concat order next (deps g k) (separate k) (ground (arith, next_facts)),
    )

    ready-place :
        (k : Uuid)
        → contains (place g w next).ready k
          ≡ (waiting g (order ++ next ∷ []) k && missing (order ++ next ∷ []) (deps g k) == 0)
    unfolding place decrement
    ready-place k = ground (
      arith,
      contains-release_all (dependent_ids g next) taken k (dependents_distinct next),
      get-remove next w.remaining k,
      contains-delete next w.ready k,
      inv.counts k,
      inv.ready_iff k,
      contains-append order (next ∷ []) k,
      linked k next,
      missing-concat order next (deps g k) (separate k) (ground (arith, next_facts)),
    )

    pub Inv-place : Inv g (place g w next) (order ++ next ∷ [])
    unfolding place
    Inv-place = record {
      counts = counts-place;
      ready_iff = ready-place;
      ready_sorted =
          IsSorted-release_all (dependent_ids g next) taken
            (IsSorted-delete next w.ready inv.ready_sorted);
      distinct = IsNodup-concat order next inv.distinct (ground (arith, next_facts));
      placed_known = λ b m. ground (
        arith,
        contains-append order (next ∷ []) b,
        inv.placed_known b,
        next_facts,
        contains-keys g.migrations next,
      );
      ordered = IsOrdered-concat g [] order next inv.ordered next_facts.1;
      greedy = IsGreedy-concat g [] order next inv.greedy is_smallest;
    }
