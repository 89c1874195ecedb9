-- ===== src/Graph/Closure.antt =====
-- `closure_of` selects exactly what a migration transitively depends on, in deployment order.
use mathlib.Core.Path.{subst}
use zapadka.Common.{
  ℕ, zero, suc, ◌+◌, ◌≤◌, ◌≡◌, refl, Bool, true, false, ◌&&◌, ◌||◌, List, [], ◌∷◌, none, some, ◌==◌,
  arith, contains, get, keys, retain, length, Bool-cases, Option-cases, inl, inr, add, contains-add,
  if◌then◌else◌, contains-keys, ap, sym, ◌∙◌, ◌↔◌,
}
use zapadka.Common.Counting.{Within}
use zapadka.Errors.{ok}
use zapadka.Manifest.{Uuid}
use zapadka.Migration.{Migration, depends}
use zapadka.Graph.{
  Graph, build, push_all, pushed, closure_loop, total_depends, included_from, closure_of,
  deployment_order, look_up, topological_sort,
}
use zapadka.Graph.Facts.{deps, known, IsWellFormed, IsDistinct}
use zapadka.Graph.Build.{project, AllDistinct, build-eq-ok, checked_complete}

-- The transitive dependencies of `id`, with itself.
pub data Needs (g : Graph) (id : Uuid) : Uuid → Type 0 where
  here : Needs g id id
  step : {u v : Uuid} → Needs g id u → contains (deps g u) v ≡ true → Needs g id v

contains-push_all :
    (ds stack : List Uuid) (k : Uuid)
    → contains (push_all stack ds) k ≡ (contains stack k || contains ds k)
unfolding push_all
contains-push_all [] stack k = ground arith
contains-push_all (d ∷ ds) stack k = ground (arith, contains-push_all ds (d ∷ stack) k)

length-push_all : (ds stack : List Uuid) → length (push_all stack ds) ≡ length stack + length ds
unfolding push_all
length-push_all [] stack = omega arith
length-push_all (d ∷ ds) stack = omega (arith, length-push_all ds (d ∷ stack))

pushed-deps : (g : Graph) (k : Uuid) → pushed g k ≡ deps g k
unfolding pushed
pushed-deps g k = ground arith

-- How much the identities that are not included can still push.
cost : List Uuid → List (Uuid × Migration) → ℕ
cost included [] = 0
cost included ((k, m) ∷ ms) =
    (if contains included k then 0 else length (depends m)) + cost included ms

cost-nil : (ms : List (Uuid × Migration)) → cost [] ms ≡ total_depends ms
unfolding cost total_depends
cost-nil [] = refl
cost-nil ((k, m) ∷ ms) = omega (arith, cost-nil ms)

cost-add-le :
    (included : List Uuid) (c : Uuid) (ms : List (Uuid × Migration))
    → cost (add c included) ms ≤ cost included ms
unfolding cost
cost-add-le included c [] = omega arith
cost-add-le included c ((k, m) ∷ ms) =
    ground (arith, contains-add c included k, cost-add-le included c ms)

cost-add :
    (included : List Uuid) (c : Uuid) (ms : List (Uuid × Migration))
    → contains included c ≡ false
    → cost (add c included) ms + length (elim (get ms c) [ none ↦ [] | some m ↦ depends m ])
      ≤ cost included ms
unfolding cost
cost-add included c [] h = omega arith
cost-add included c ((k, m) ∷ ms) h =
    ground (arith, contains-add c included k, cost-add-le included c ms, cost-add included c ms)

module _ (g : Graph) (id : Uuid) where
  record Inv (included stack : List Uuid) : Type 0 where
    source : (contains included id || contains stack id) ≡ true
    sound : (k : Uuid) → (contains included k || contains stack k) ≡ true → Needs g id k
    closed :
        (u v : Uuid)
        → contains included u ≡ true
        → contains (deps g u) v ≡ true
        → (contains included v || contains stack v) ≡ true

  Inv-old :
      (included stack : List Uuid) (c : Uuid)
      → contains included c ≡ true
      → Inv included (c ∷ stack)
      → Inv included stack
  Inv-old included stack c old inv = record {
    source = ground (arith, inv.source, same c id);
    sound = λ k m. inv.sound k (ground arith);
    closed = λ u v m e. ground (arith, inv.closed u v m e, same c v);
  }
    where
      same :
          (a b : Uuid) → (a == b) ≡ true → contains included a ≡ true → contains included b ≡ true
      same a b e m = subst (λ z. contains included z ≡ true) (ground arith) m

  Inv-new :
      (included stack : List Uuid) (c : Uuid)
      → contains included c ≡ false
      → Inv included (c ∷ stack)
      → Inv (add c included) (push_all stack (pushed g c))
  Inv-new included stack c new inv = record {
    source =
        ground
          (arith, inv.source, contains-add c included id, contains-push_all (pushed g c) stack id);
    sound = λ k m. elim (Bool-cases (contains included k || contains (c ∷ stack) k)) [
      | inl old ↦ inv.sound k old
      | inr fresh ↦ step (inv.sound c (ground arith)) (
          ground (
            arith,
            contains-add c included k,
            contains-push_all (pushed g c) stack k,
            pushed-deps g c,
          ))
    ];
    closed = λ u v m e. ground (
      arith,
      inv.closed u v,
      contains-add c included u,
      contains-add c included v,
      contains-push_all (pushed g c) stack v,
      pushed-deps g c,
      same c u v,
    );
  }
    where
      same :
          (a b v : Uuid)
          → (a == b) ≡ true
          → contains (deps g b) v ≡ true
          → contains (deps g a) v ≡ true
      same a b v e m = subst (λ z. contains (deps g z) v ≡ true) (ground arith) m

  closure_loop_ends :
      (fuel : ℕ) (included stack : List Uuid)
      → cost included g.migrations + length stack ≤ fuel
      → Inv included stack
      → Inv (closure_loop fuel g included stack) []
  unfolding closure_loop
  closure_loop_ends zero included [] h inv = inv
  closure_loop_ends zero included (c ∷ stack) h inv = absurd (omega arith)
  closure_loop_ends (suc fuel) included [] h inv = inv
  closure_loop_ends (suc fuel) included (c ∷ stack) h inv =
      elim (Bool-cases (contains included c)) [
        | inl old ↦
            rw (old, closure_loop)
              (closure_loop_ends fuel included stack (omega arith)
                (Inv-old included stack c old inv))
        | inr new ↦
            rw (new, closure_loop)
              (closure_loop_ends fuel (add c included) (push_all stack (pushed g c))
                (omega (
                  arith,
                  cost-add included c g.migrations new,
                  length-push_all (pushed g c) stack,
                  ap length (pushed-deps g c),
                ))
                (Inv-new included stack c new inv))
      ]

  Inv-start : Inv [] (id ∷ [])
  Inv-start = record {
    source = ground arith;
    sound = λ k m. subst (Needs g id) (ground arith) here;
    closed = λ u v m e. cc;
  }

  included_ends : Inv (included_from g id) []
  unfolding included_from
  included_ends =
      closure_loop_ends (suc (total_depends g.migrations)) [] (id ∷ [])
        (omega (arith, cost-nil g.migrations)) Inv-start

  complete : (k : Uuid) → Needs g id k → contains (included_from g id) k ≡ true
  complete k here = let inv = included_ends in ground (arith, inv.source)
  complete k (step {u} {v} p e) =
      let inv = included_ends in ground (arith, inv.closed u k (complete u p) e)

  -- The walk includes exactly the transitive dependencies.
  pub included_from_iff : (k : Uuid) → (contains (included_from g id) k ≡ true) ↔ Needs g id k
  included_from_iff k = let inv = included_ends in (λ m. inv.sound k (ground arith), complete k)

abbrev pub ids : List Migration → List Uuid
ids [] = []
ids (m ∷ ms) = m.id ∷ ids ms

pub contains-retain :
    (p : Uuid → Bool) (xs : List Uuid) (k : Uuid)
    → contains (retain p xs) k ≡ (contains xs k && p k)
contains-retain p [] k = refl
contains-retain p (x ∷ xs) k = elim (Bool-cases (x == k)) [
  | inl here_too ↦ let e : x ≡ k = ground arith in ground (arith, contains-retain p xs k, ap p e)
  | inr there ↦ ground (arith, contains-retain p xs k)
]

pub ids-retain :
    (p : Uuid → Bool) (ms : List Migration)
    → ids (retain (λ (m : Migration). p m.id) ms) ≡ retain p (ids ms)
ids-retain p [] = refl
ids-retain p (m ∷ ms) = ground (arith, ids-retain p ms)

-- Looking up identities of the project gives their migrations, in the same order.
pub ids-look_up :
    (g : Graph) (xs : List Uuid)
    → IsWellFormed g
    → Within xs (keys g.migrations)
    → ids (look_up g xs) ≡ xs
unfolding look_up
ids-look_up g [] formed h = refl
ids-look_up g (x ∷ xs) formed h =
    let rest = ids-look_up g xs formed (λ b m. h b (ground arith)) in
    let there = h x (ground arith) in
    elim (Option-cases (get g.migrations x)) [
      | inl e ↦ absurd (ground (arith, contains-keys g.migrations x))
      | inr (m, e) ↦ ground (arith, formed.keyed x m)
    ]

pub ids-deployment_order :
    (g : Graph)
    → IsWellFormed g
    → Within (topological_sort g) (keys g.migrations)
    → ids (deployment_order g) ≡ topological_sort g
unfolding deployment_order
ids-deployment_order g formed h = ids-look_up g (topological_sort g) formed h

closure_of-retain :
    (g : Graph) (id : Uuid)
    → IsWellFormed g
    → known g id ≡ true
    → closure_of g id
      ≡ ok (retain (λ (m : Migration). contains (included_from g id) m.id) (deployment_order g))
unfolding closure_of
closure_of-retain g id formed h = elim (Option-cases (get g.migrations id)) [
  | inl e ↦ absurd (ground arith)
  | inr (m, e) ↦ ground (arith, formed.keyed id m)
]

Needs-known :
    (g : Graph) (id k : Uuid) → IsWellFormed g → known g id ≡ true → Needs g id k → known g k ≡ true
Needs-known g id k formed h here = h
Needs-known g id k formed h (step {u} p e) = formed.deps_known u k e

-- In a built graph, the closure of a migration is selected without an error. It holds exactly what
-- the migration transitively depends on and the migration itself, in the deployment order.
pub closure_of_selects :
    (list : List Migration) (g : Graph) (id : Uuid)
    → AllDistinct (project list)
    → build list ≡ ok g
    → known g id ≡ true
    → (ms : List Migration) × (closure_of g id ≡ ok ms)
      × ((k : Uuid) → (contains (ids ms) k ≡ true) ↔ Needs g id k)
      × (ids ms ≡ retain (contains (included_from g id)) (topological_sort g))
closure_of_selects list g id separate h is_known =
    let (e, formed, checked) = build-eq-ok list g h in
    let distinct : IsDistinct g = subst AllDistinct (sym e) separate in
    let all = checked_complete g formed distinct checked in
    let order : ids (deployment_order g) ≡ topological_sort g =
      ids-deployment_order g formed (λ b m. contains-keys g.migrations b ∙ (sym (all b) ∙ m)) in
    let p = contains (included_from g id) in
    let picked : ids (retain (λ (m : Migration). p m.id) (deployment_order g))
        ≡ retain p (topological_sort g) =
      ids-retain p (deployment_order g) ∙ ap (retain p) order in
    (
      retain (λ (m : Migration). p m.id) (deployment_order g),
      closure_of-retain g id formed is_known,
      λ k.
          let (sound, full) = included_from_iff g id k in
          (
            λ m. sound (both k (ap (λ (l : List Uuid). contains l k) (sym picked) ∙ m)),
            λ n.
                ap (λ (l : List Uuid). contains l k) picked
                ∙ kept k (all k ∙ Needs-known g id k formed is_known n) (full n),
          ),
      picked,
    )
  where
    both :
        (k : Uuid)
        → contains (retain (contains (included_from g id)) (topological_sort g)) k ≡ true
        → contains (included_from g id) k ≡ true
    both k m =
        ground (arith, contains-retain (contains (included_from g id)) (topological_sort g) k)

    kept :
        (k : Uuid)
        → contains (topological_sort g) k ≡ true
        → contains (included_from g id) k ≡ true
        → contains (retain (contains (included_from g id)) (topological_sort g)) k ≡ true
    kept k a b =
        ground (arith, contains-retain (contains (included_from g id)) (topological_sort g) k)
