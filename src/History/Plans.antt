-- ===== src/History/Plans.antt =====
-- What a successful plan says of the history, and when planning succeeds.
use mathlib.Core.Path.{subst}
use zapadka.Common.{
  ◌≡◌, refl, sym, ap, ◌∙◌, Bool, true, false, not, ◌&&◌, List, [], ◌∷◌, some, ◌==◌, arith, contains,
  contains_key, get, retain, is_empty, Bool-cases, Option-cases, inl, inr, ◌⊎◌, ◌↔◌, ◌<◌,
  text_eq_sound, text_eq_refl, IsNodup,
}
use zapadka.Errors.{ok, >>=-eq-ok}
use zapadka.Manifest.{Uuid, Library}
use zapadka.Migration.{Migration, depends}
use zapadka.Graph.{Graph, build, deployment_order, topological_sort}
use zapadka.Graph.Facts.{deps, known, IsDistinct}
use zapadka.Graph.Build.{
  project, AllDistinct, build-eq-ok, checked_complete, index, IsOrdered-index,
}
use zapadka.Graph.Order.{topological_sort-IsOrdered}
use zapadka.Graph.Closure.{ids, ids-deployment_order}
use zapadka.Registry.{AppliedMigration, check_definition_algorithm}
use zapadka.History.{
  Plan, check_dependencies_applied, definition_of, check_unchanged, check_row, check_rows,
  ids_where, plan,
}

-- Dropping members that fail a test keeps the order of the others.
index-retain :
    (p : Uuid → Bool) (xs : List Uuid) (a b : Uuid)
    → p a ≡ true
    → p b ≡ true
    → index xs a < index xs b
    → index (retain p xs) a < index (retain p xs) b
index-retain p [] a b ha hb h = omega (arith, h)
index-retain p (x ∷ xs) a b ha hb h = elim (Bool-cases (p x)) [
  | inl kept ↦ ground (arith, index-retain p xs a b)
  | inr dropped ↦
      let na : (x == a) ≡ false = apart a ha dropped in
      let nb : (x == b) ≡ false = apart b hb dropped in ground (arith, index-retain p xs a b)
]
  where
    apart : (c : Uuid) → p c ≡ true → p x ≡ false → (x == c) ≡ false
    apart c hc hx = elim (Bool-cases (x == c)) [
      | inr different ↦ different
      | inl same ↦ let e : x ≡ c = ground arith in let f = ap p e in cc
    ]

contains-retain :
    (p : Uuid → Bool) (xs : List Uuid) (k : Uuid)
    → contains (retain p xs) k ≡ (contains xs k && p k)
contains-retain p [] k = refl
contains-retain p (x ∷ xs) k = elim (Bool-cases (x == k)) [
  | inl here ↦ let e : x ≡ k = ground arith in ground (arith, contains-retain p xs k, ap p e)
  | inr there ↦ ground (arith, contains-retain p xs k)
]

none_absent :
    (p : Uuid → Bool) (ds : List Uuid)
    → (is_empty (retain (λ d. not (p d)) ds) ≡ true)
      ↔ ((d : Uuid) → contains ds d ≡ true → p d ≡ true)
none_absent p [] = (λ h d m. cc, λ h. refl)
none_absent p (x ∷ ds) = (
  λ h d m. elim (Bool-cases (x == d)) [
    | inl same ↦ let e : x ≡ d = ground arith in let f = ap p e in ground arith
    | inr other ↦ (none_absent p ds).0 (ground arith) d (ground arith)
  ],
  λ h.
      let rest = (none_absent p ds).1 (λ d m. h d (ground arith)) in
      let first = h x (ground arith) in ground arith,
)

ids_where-retain :
    (lib : Library) (p : Uuid → Bool) (ms : List Migration) → ids_where lib p ms ≡ retain p (ids ms)
unfolding ids_where
ids_where-retain lib p [] = refl
ids_where-retain lib p (m ∷ ms) = ground (arith, ids_where-retain lib p ms)

module _ (lib : Library) (g : Graph) (applied : List (Uuid × AppliedMigration)) where
  -- The migration that a row stands for is in the project, has the definition that the row records,
  -- under an algorithm that is known, and depends on applied migrations only.
  pub record IsIntact (id : Uuid) (row : AppliedMigration) : Type 0 where
    pub source : Migration
    pub found : get g.migrations id ≡ some source
    pub algorithm_known : check_definition_algorithm row.definition_algorithm ≡ ok tt
    pub unchanged : definition_of lib source row ≡ ok row.definition_sha256
    pub closed : (d : Uuid) → contains (depends source) d ≡ true → contains_key applied d ≡ true

  check_unchanged_iff :
      (m : Migration) (row : AppliedMigration)
      → (check_unchanged lib m row ≡ ok tt) ↔ (
          (check_definition_algorithm row.definition_algorithm ≡ ok tt)
          × (definition_of lib m row ≡ ok row.definition_sha256))
  unfolding check_unchanged
  check_unchanged_iff m row = (
    λ h.
        let (_, known_one, rest) =
          >>=-eq-ok (check_definition_algorithm row.definition_algorithm) _ h in
        let (definition, computed, same) = >>=-eq-ok (definition_of lib m row) _ rest in
        let e : definition ≡ row.definition_sha256 =
          text_eq_sound definition row.definition_sha256 (ground arith) in
        (ground arith, computed ∙ ap ok e),
    λ (a, b). let e = text_eq_refl row.definition_sha256 in ground arith,
  )

  check_row_iff :
      (id : Uuid) (row : AppliedMigration)
      → (check_row lib g applied id row ≡ ok tt) ↔ IsIntact id row
  unfolding check_row check_dependencies_applied
  check_row_iff id row = (
    λ h. elim (Option-cases (get g.migrations id)) [
      | inl absent ↦ absurd (ground arith)
      | inr (m, present) ↦
          let (_, same, rest) =
            >>=-eq-ok (check_unchanged lib m row) (λ _. check_dependencies_applied m applied)
              (ground arith) in
          let (algorithm, hash) = (check_unchanged_iff m row).0 same in
          record {
            source = m;
            found = present;
            algorithm_known = algorithm;
            unchanged = hash;
            closed = (none_absent (contains_key applied) (depends m)).0 (ground arith);
          }
    ],
    λ v.
        let same = (check_unchanged_iff v.source row).1 (v.algorithm_known, v.unchanged) in
        let all = (none_absent (contains_key applied) (depends v.source)).1 v.closed in
        let f = v.found in ground arith,
  )

  -- Every row of a table is intact.
  abbrev pub AllIntact : List (Uuid × AppliedMigration) → Type 0
  AllIntact [] = Unit
  AllIntact ((id, row) ∷ rows) = IsIntact id row × AllIntact rows

  check_rows_iff :
      (rows : List (Uuid × AppliedMigration))
      → (check_rows lib g applied rows ≡ ok tt) ↔ AllIntact rows
  unfolding check_rows
  check_rows_iff [] = (λ h. tt, λ h. refl)
  check_rows_iff ((k, r) ∷ rows) = (
    λ h.
        let (_, first, rest) =
          >>=-eq-ok (check_row lib g applied k r) (λ _. check_rows lib g applied rows)
            (ground arith) in
        ((check_row_iff k r).0 (ground arith), (check_rows_iff rows).0 rest),
    λ (first, rest).
        let a = (check_row_iff k r).1 first in let b = (check_rows_iff rows).1 rest in ground arith,
  )

  AllIntact-get :
      (rows : List (Uuid × AppliedMigration)) (id : Uuid) (row : AppliedMigration)
      → AllIntact rows
      → get rows id ≡ some row
      → IsIntact id row
  AllIntact-get [] id row h e = cc
  AllIntact-get ((k, r) ∷ rows) id row (first, rest) e = elim (Bool-cases (k == id)) [
    | inl here ↦
        let same : k ≡ id = ground arith in
        let content : r ≡ row = ground arith in
        subst (λ i. IsIntact i row) same (subst (IsIntact k) content first)
    | inr there ↦ AllIntact-get rows id row rest (ground arith)
  ]

  -- An applied migration is in the project, with all of its dependencies applied.
  AllIntact-closed :
      AllIntact applied
      → (k : Uuid) → contains_key applied k ≡ true
      → (known g k ≡ true)
        × ((d : Uuid) → contains (deps g k) d ≡ true → contains_key applied d ≡ true)
  AllIntact-closed h k m = elim (Option-cases (get applied k)) [
    | inl absent ↦ absurd (ground arith)
    | inr (row, present) ↦
        let v = AllIntact-get applied k row h present in
        let f = v.found in (ground arith, λ d n. v.closed d (ground arith))
  ]

  -- Planning succeeds exactly when every applied row is intact.
  pub plan_accepts : ((p : Plan) × (plan lib g applied ≡ ok p)) ↔ AllIntact applied
  unfolding plan
  plan_accepts = (
    λ (p, h).
        let (_, checked, _) = >>=-eq-ok (check_rows lib g applied applied) _ h in
        (check_rows_iff applied).0 checked,
    λ h.
        let checked = (check_rows_iff applied).1 h in
        (
          record {
            pending = ids_where lib (λ id. not (contains_key applied id)) (deployment_order g);
            applied = ids_where lib (contains_key applied) (deployment_order g);
          },
          ground arith,
        ),
  )

IsNodup-retain : (p : Uuid → Bool) (xs : List Uuid) → IsNodup xs → IsNodup (retain p xs)
IsNodup-retain p [] h = tt
IsNodup-retain p (x ∷ xs) h = ground (arith, contains-retain p xs x, IsNodup-retain p xs)

module _ (lib : Library) (list : List Migration) (g : Graph)
    (applied : List (Uuid × AppliedMigration)) (p : Plan) where
  planned_lists :
      ids (deployment_order g) ≡ topological_sort g
      → plan lib g applied ≡ ok p
      → (p.pending ≡ retain (λ id. not (contains_key applied id)) (topological_sort g))
        × (p.applied ≡ retain (contains_key applied) (topological_sort g))
        × AllIntact lib g applied applied
  unfolding plan
  planned_lists order h =
      let (_, checked, e) = >>=-eq-ok (check_rows lib g applied applied) _ h in
      let waiting = λ (id : Uuid). not (contains_key applied id) in
      let left = ids_where-retain lib waiting (deployment_order g) ∙ ap (retain waiting) order in
      let done =
        ids_where-retain lib (contains_key applied) (deployment_order g)
        ∙ ap (retain (contains_key applied)) order in
      let pending_is : ids_where lib waiting (deployment_order g) ≡ p.pending = cc in
      let applied_is : ids_where lib (contains_key applied) (deployment_order g) ≡ p.applied = cc in
      (sym pending_is ∙ left, sym applied_is ∙ done, (plan_accepts lib g applied).0 (p, h))

  -- In a built project, a plan lists as applied what the registry holds, and as pending every other
  -- migration once. Every dependency of a pending migration is applied or stands before it in the
  -- list, and every dependency of an applied migration is applied.
  pub plan_schedules :
      AllDistinct (project list)
      → build list ≡ ok g
      → plan lib g applied ≡ ok p
      → ((k : Uuid) → contains p.applied k ≡ contains_key applied k)
        × ((k : Uuid) → contains p.pending k ≡ (known g k && not (contains_key applied k)))
        × IsNodup p.pending
        × ((k d : Uuid)
            → contains p.pending k ≡ true
            → contains (deps g k) d ≡ true
            → (contains_key applied d ≡ true) ⊎ (index p.pending d < index p.pending k))
        × ((k d : Uuid)
            → contains_key applied k ≡ true
            → contains (deps g k) d ≡ true
            → contains_key applied d ≡ true)
  plan_schedules separate h planned =
      let (e, formed, checked) = build-eq-ok list g h in
      let distinct : IsDistinct g = subst AllDistinct (sym e) separate in
      let all = checked_complete g formed distinct checked in
      let (ordered, once, inside) = topological_sort-IsOrdered g formed distinct in
      let order = ids-deployment_order g formed (λ b m. inside b m) in
      let (pending_is, applied_is, intact) = planned_lists order planned in
      let waiting = λ (id : Uuid). not (contains_key applied id) in
      let has_pending = λ (k : Uuid).
        ap (λ (l : List Uuid). contains l k) pending_is
        ∙ contains-retain waiting (topological_sort g) k in
      let has_applied = λ (k : Uuid).
        ap (λ (l : List Uuid). contains l k) applied_is
        ∙ contains-retain (contains_key applied) (topological_sort g) k in
      let closed = AllIntact-closed lib g applied intact in
      (
        λ k. elim (Bool-cases (contains_key applied k)) [
          | inl present ↦ ground (arith, has_applied k, all k, closed k present)
          | inr absent ↦ ground (arith, has_applied k)
        ],
        λ k. ground (arith, has_pending k, all k),
        subst IsNodup (sym pending_is) (IsNodup-retain waiting (topological_sort g) once),
        λ k d m n. elim (Bool-cases (contains_key applied d)) [
          | inl done ↦ inl done
          | inr left ↦
              let first = has_pending k in
              elim (IsOrdered-index g [] (topological_sort g) k d ordered (ground arith) n) [
                | inl seen ↦ cc
                | inr before ↦ inr (
                    subst (λ l. index l d < index l k) (sym pending_is)
                      (index-retain waiting (topological_sort g) d k (ground arith) (ground arith)
                        before))
              ]
        ],
        λ k d m n. (closed k m).1 d n,
      )
