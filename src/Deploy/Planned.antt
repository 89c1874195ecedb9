-- ===== src/Deploy/Planned.antt =====
-- A run of the plan of a built project, from the registry that the plan was made of.
use zapadka.Common.{
  ◌≡◌, ap, Bool, true, ◌||◌, List, [], ◌∷◌, none, some, ◌==◌, arith, All, get, contains, Bool-cases,
  Option-cases, inl, inr, ◌⊎◌, ◌<◌, IsNodup, Text,
}
use zapadka.Errors.{ok}
use zapadka.Manifest.{Uuid, Library}
use zapadka.Migration.{Migration, structural_definition}
use zapadka.Graph.{Graph, build}
use zapadka.Graph.Facts.{deps, known}
use zapadka.Graph.Build.{project, AllDistinct, build-eq-ok, index}
use zapadka.Server.{Server, Wire, Runner}
use zapadka.History.{Plan, plan}
use zapadka.History.Plans.{plan_schedules}
use zapadka.Deploy.{apply_all}
use zapadka.Deploy.Accounts.{IsSelectable}
use zapadka.Deploy.Steps.{applied_to}
use zapadka.Deploy.Runs.{IsClosed, IsReady, apply_all_keeps}

All_of_contains :
    (P : Uuid → Type 0) (ks : List Uuid) → ((k : Uuid) → contains ks k ≡ true → P k) → All P ks
All_of_contains P [] h = tt
All_of_contains P (x ∷ ks) h =
    (h x (ground arith), All_of_contains P ks (λ k m. h k (ground arith)))

-- Dependencies that are held or stand earlier are done before their dependent's turn.
IsReady-of_index :
    (g : Graph) (held : Uuid → Bool) (ks : List Uuid)
    → IsNodup ks
    → ((k d : Uuid)
        → contains ks k ≡ true
        → contains (deps g k) d ≡ true
        → (held d ≡ true) ⊎ (index ks d < index ks k))
    → IsReady g held ks
IsReady-of_index g held [] once h = tt
IsReady-of_index g held (x ∷ ks) (new, once) h = (
  λ d n. elim (h x d (ground arith) n) [ inl done ↦ done | inr less ↦ absurd (ground arith) ],
  IsReady-of_index g (λ d. x == d || held d) ks once
      (λ k d m n. elim (h k d (ground arith) n) [
        | inl done ↦ inl (ground arith)
        | inr less ↦ elim (Bool-cases (x == d)) [
          | inl same ↦ inl (ground arith)
          | inr other ↦ elim (Bool-cases (x == k)) [
            | inl again ↦ absurd (let e : x ≡ k = ground arith in let f = ap (contains ks) e in cc)
            | inr later ↦ inr (ground arith)
          ]
        ]
      ]),
)

module _ {ℓ} {S : Type ℓ} (lib : Library) (server : Server S) (wires : Uuid → Wire × Wire)
    (should_verify : Bool) where
  -- In a built project whose scripts parse, a run of the plan leaves a set of applied migrations that
  -- holds every dependency of its members, whatever the server answers and wherever the run stops.
  -- No migration that was applied is forgotten, only pending ones are added, and after a run that
  -- succeeds every migration of the project is applied.
  pub planned_run_keeps :
      (list : List Migration) (g : Graph) (r : Runner S) (p : Plan)
      → AllDistinct (project list)
      → build list ≡ ok g
      → plan lib g r.db.state.applied ≡ ok p
      → ((k : Uuid) (m : Migration)
          → get g.migrations k ≡ some m
          → (definition : Text) × (structural_definition lib m ≡ ok definition))
      → IsClosed g
          (applied_to (apply_all lib server wires should_verify g p.pending r [] none).runner)
        × ((k : Uuid)
            → applied_to r k ≡ true
            → applied_to (apply_all lib server wires should_verify g p.pending r [] none).runner k
              ≡ true)
        × ((k : Uuid)
            → applied_to (apply_all lib server wires should_verify g p.pending r [] none).runner k
              ≡ true
            → (applied_to r k || contains p.pending k) ≡ true)
        × ((apply_all lib server wires should_verify g p.pending r [] none).outcome ≡ ok tt
            → (k : Uuid) → known g k ≡ true
            → applied_to (apply_all lib server wires should_verify g p.pending r [] none).runner k
              ≡ true)
  planned_run_keeps list g r p separate built planned parse =
      let (_, formed, _) = build-eq-ok list g built in
      let (_, pending, once, before, closed) =
        plan_schedules lib list g r.db.state.applied p separate built planned in
      let kept =
        apply_all_keeps lib server wires should_verify g p.pending r [] (applied_to r)
          (All_of_contains (IsSelectable lib g) p.pending
            (λ k m. select k (ground (arith, pending k)) formed.keyed))
          closed (λ d m. m) (IsReady-of_index g (applied_to r) p.pending once before) in
      (
        kept.closed,
        kept.old,
        kept.selected,
        λ finished k m. elim (Bool-cases (applied_to r k)) [
          | inl old ↦ kept.old k old
          | inr waiting ↦ kept.complete finished k (let e = pending k in ground arith)
        ],
      )
    where
      select :
          (k : Uuid)
          → known g k ≡ true
          → ((k : Uuid) (m : Migration) → get g.migrations k ≡ some m → m.id ≡ k)
          → IsSelectable lib g k
      select k m keyed = elim (Option-cases (get g.migrations k)) [
        | inl absent ↦ absurd (ground arith)
        | inr (source, found) ↦
            let (definition, parses) = parse k source found in
            record {
              source = source;
              found = found;
              identity = keyed k source found;
              definition = definition;
              parses = parses;
            }
      ]
