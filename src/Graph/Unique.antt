-- ===== src/Graph/Unique.antt =====
-- The deployment order has a specification that only one list meets.
use zapadka.Common.{
  ◌≡◌, refl, true, List, [], ◌∷◌, ◌++◌, arith, contains, contains-append, IsNodup, sym, ◌∙◌,
}
use mathlib.Core.Path.{subst}
use zapadka.Errors.{ok}
use zapadka.Manifest.{Uuid}
use zapadka.Migration.{Migration}
use zapadka.Graph.{Graph, build, topological_sort}
use zapadka.Graph.Facts.{IsDistinct}
use zapadka.Graph.Sorting.{IsOrdered, IsGreedy, waiting, could_go}
use zapadka.Graph.Order.{topological_sort-IsOrdered, topological_sort-IsGreedy}
use zapadka.Graph.Build.{project, AllDistinct, build-eq-ok, checked_complete}

-- A plan for what is left after `seen`: all of it, each once, behind its dependencies, and at each
-- place the smallest identity that could stand there.
pub record IsSchedule (g : Graph) (seen plan : List Uuid) : Type 0 where
  pub ordered : IsOrdered g seen plan
  pub greedy : IsGreedy g seen plan
  pub distinct : IsNodup plan
  pub complete : (k : Uuid) → contains plan k ≡ waiting g seen k

module _ (g : Graph) where
  IsSchedule-tail :
      (seen : List Uuid) (k : Uuid) (ks : List Uuid)
      → IsSchedule g seen (k ∷ ks)
      → IsSchedule g (seen ++ k ∷ []) ks
  IsSchedule-tail seen k ks s = record {
    ordered = s.ordered.1;
    greedy = s.greedy.1;
    distinct = s.distinct.1;
    complete = λ j. ground (arith, s.complete j, s.distinct, contains-append seen (k ∷ []) j);
  }

  head_could_go :
      (seen : List Uuid) (k : Uuid) (ks : List Uuid)
      → IsSchedule g seen (k ∷ ks)
      → could_go g seen k ≡ true
  head_could_go seen k ks s = ground (arith, s.complete k, s.ordered)

  IsSchedule-unique :
      (seen xs ys : List Uuid) → IsSchedule g seen xs → IsSchedule g seen ys → xs ≡ ys
  IsSchedule-unique seen [] [] s t = refl
  IsSchedule-unique seen [] (y ∷ ys) s t = absurd (ground (arith, s.complete y, t.complete y))
  IsSchedule-unique seen (x ∷ xs) [] s t = absurd (ground (arith, s.complete x, t.complete x))
  IsSchedule-unique seen (x ∷ xs) (y ∷ ys) s t =
      let below = s.greedy.0 y (head_could_go seen y ys t) in
      let above = t.greedy.0 x (head_could_go seen x xs s) in
      let same : x ≡ y = omega arith in
      let tail =
        IsSchedule-unique (seen ++ x ∷ []) xs ys (IsSchedule-tail seen x xs s) (
          subst (λ z. IsSchedule g (seen ++ z ∷ []) ys) (sym same) (IsSchedule-tail seen y ys t)) in
      cc

-- The deployment order of a built graph meets the specification, and no other list does.
pub topological_sort_unique :
    (list : List Migration) (g : Graph)
    → AllDistinct (project list)
    → build list ≡ ok g
    → IsSchedule g [] (topological_sort g)
      × ((plan : List Uuid) → IsSchedule g [] plan → plan ≡ topological_sort g)
topological_sort_unique list g separate h =
    let (e, formed, checked) = build-eq-ok list g h in
    let distinct : IsDistinct g = subst AllDistinct (sym e) separate in
    let (ordered, once, _) = topological_sort-IsOrdered g formed distinct in
    let schedule : IsSchedule g [] (topological_sort g) = record {
      ordered = ordered;
      greedy = topological_sort-IsGreedy g formed distinct;
      distinct = once;
      complete = λ k. checked_complete g formed distinct checked k ∙ ground arith;
    } in
    (schedule, λ plan s. IsSchedule-unique g [] plan (topological_sort g) s schedule)
