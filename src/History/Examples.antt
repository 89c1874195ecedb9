-- ===== src/History/Examples.antt =====
-- The project of Graph/Examples with its first migration applied, and the theorems at it.
use zapadka.Common.{
  ◌≡◌, refl, true, not, ◌&&◌, [], ◌∷◌, List, codes, contains, contains_key, IsNodup, ◌⊎◌, ◌<◌, ◌↔◌,
}
use zapadka.Errors.{ok, err, new, history_migration_missing}
use zapadka.Manifest.{Uuid, definition_sha256, canonical_depends, canonical_form, as_str}
use zapadka.Manifest.Examples.{library}
use zapadka.Migration.{Migration}
use zapadka.Graph.Facts.{deps, known}
use zapadka.Graph.Build.{index}
use zapadka.Graph.Examples.{migration, diamond, built, build-diamond, diamond-AllDistinct, program}
use zapadka.Registry.{AppliedMigration, raw_v1, check_definition_algorithm}
use zapadka.History.{
  Plan, plan, check_dependencies_applied, changed, check_unchanged, check_row, check_rows,
  ids_where,
}
use zapadka.History.Plans.{AllIntact, plan_accepts, plan_schedules}

abbrev row : Migration → AppliedMigration
row m = record {
  definition_algorithm = raw_v1;
  id = m.id;
  slug = m.slug;
  definition_sha256 = definition_sha256 library m.manifest m.deploy.sql;
  deploy_sha256 = m.deploy.sha256;
  depends = m.manifest.depends;
  transaction_mode = codes "required";
}

abbrev applied_one : List (Uuid × AppliedMigration)
applied_one = (1, row (migration 1 [])) ∷ []

abbrev planned : Plan
planned = record { pending = 2 ∷ 3 ∷ 4 ∷ []; applied = 1 ∷ [] }

plan-diamond : plan library built applied_one ≡ ok planned
unfolding program plan check_dependencies_applied changed check_unchanged check_row check_rows
    ids_where definition_sha256 canonical_depends canonical_form as_str check_definition_algorithm
plan-diamond = refl

-- A dependent that is applied without its dependency is refused.
plan-gap :
    plan library built ((2, row (migration 2 (1 ∷ []))) ∷ []) ≡ err (new history_migration_missing)
unfolding program plan check_dependencies_applied changed check_unchanged check_row check_rows
    ids_where definition_sha256 canonical_depends canonical_form as_str check_definition_algorithm
plan-gap = refl

plan_accepts_example :
    ((p : Plan) × (plan library built applied_one ≡ ok p))
    ↔ AllIntact library built applied_one applied_one
plan_accepts_example = plan_accepts library built applied_one

plan_schedules_example :
    ((k : Uuid) → contains planned.applied k ≡ contains_key applied_one k)
    × ((k : Uuid)
        → contains planned.pending k ≡ (known built k && not (contains_key applied_one k)))
    × IsNodup planned.pending
    × ((k d : Uuid)
        → contains planned.pending k ≡ true
        → contains (deps built k) d ≡ true
        → (contains_key applied_one d ≡ true) ⊎ (index planned.pending d < index planned.pending k))
    × ((k d : Uuid)
        → contains_key applied_one k ≡ true
        → contains (deps built k) d ≡ true
        → contains_key applied_one d ≡ true)
plan_schedules_example =
    plan_schedules library diamond built applied_one planned diamond-AllDistinct build-diamond
      plan-diamond
