-- ===== src/Rehash/Entries.antt =====
-- What an entry without a failure says of its row.
use mathlib.Core.Path.{subst}
use zapadka.Common.{
  ◌≡◌, ◌⊎◌, refl, ap, sym, ◌∙◌, Text, Bool, true, false, Option, none, some, arith, inl, inr,
  Bool-cases, get, text_eq, text_eq_sound,
}
use zapadka.Errors.{Error, Result, ok, err, Result-cases, >>=-eq-ok, new, history_migration_missing}
use zapadka.Manifest.{Library}
use zapadka.Migration.{Migration, require, structural_definition}
use zapadka.Graph.{Graph}
use zapadka.Registry.{AppliedMigration, RegistryState, check_definition_algorithm, structural_v1}
use zapadka.History.{check_dependencies_applied, check_unchanged}
use zapadka.Rehash.{
  RehashEntry, converts, check_execution_metadata, check_deploy_source, check_source, dispose,
  classify_row, noted, entry_of,
}

module _ (lib : Library) (g : Graph) (state : RegistryState) where
  -- The row's migration is in the project, and its dependencies are applied. The entry converts the
  -- row to the migration's structural definition, or the row is unchanged under that algorithm.
  pub record IsReady (row : AppliedMigration) (e : RehashEntry) : Type 0 where
    pub source : Migration
    pub found : get g.migrations row.id ≡ some source
    pub closed : check_dependencies_applied source state.applied ≡ ok tt
    pub ready :
        (converts e.disposition ≡ true)
          × ((d : Text) × (e.new_definition_sha256 ≡ some d)
              × (structural_definition lib source ≡ ok d))
        ⊎ (converts e.disposition ≡ false)
          × (check_unchanged lib source row ≡ ok tt)
          × (row.definition_algorithm ≡ structural_v1)

  require-eq-ok : {A : Type 0} (o : Option A) (e : Error) (a : A) → require o e ≡ ok a → o ≡ some a
  require-eq-ok none e a h = cc
  require-eq-ok (some b) e a h = cc

  check_source-eq-ok :
      (row : AppliedMigration) (m : Migration)
      → check_source lib g state row ≡ ok m
      → (get g.migrations row.id ≡ some m) × (check_dependencies_applied m state.applied ≡ ok tt)
  unfolding check_source
  check_source-eq-ok row m h =
      let (_, _, a) = >>=-eq-ok (check_definition_algorithm row.definition_algorithm) _ h in
      let (n, looked, b) =
        >>=-eq-ok (require (get g.migrations row.id) (new history_migration_missing)) _ a in
      let (_, closed, c) = >>=-eq-ok (check_dependencies_applied n state.applied) _ b in
      let (_, _, d) = >>=-eq-ok (check_execution_metadata n row) _ c in
      let (_, _, e) = >>=-eq-ok (check_deploy_source lib n) _ d in
      let found =
        require-eq-ok (get g.migrations row.id) (new history_migration_missing) n looked in
      (ground arith, ground arith)

  dispose-IsReady :
      (m : Migration) (row : AppliedMigration) (accept : Bool) (e : RehashEntry) (d : Text)
      → get g.migrations row.id ≡ some m
      → check_dependencies_applied m state.applied ≡ ok tt
      → e.new_definition_sha256 ≡ some d
      → structural_definition lib m ≡ ok d
      → (dispose lib m row accept e).1 ≡ ok tt
      → IsReady row (dispose lib m row accept e).0
  unfolding dispose
  dispose-IsReady m row accept e d f c n s h =
      elim (Bool-cases (text_eq row.definition_algorithm structural_v1)) [
        | inl current ↦ elim (Result-cases (check_unchanged lib m row)) [
          | inl (x, changed) ↦ absurd (ground arith)
          | inr (_, unchanged) ↦ record {
            source = m;
            found = f;
            closed = c;
            ready = inr (
              ground arith,
              unchanged,
              text_eq_sound row.definition_algorithm structural_v1 current,
            );
          }
        ]
        | inr old ↦ record {
          source = m;
          found = f;
          closed = c;
          ready = inl (ground arith, (d, ground arith, s));
        }
      ]

  classify_row-disposed :
      (row : AppliedMigration) (accept : Bool) (e : RehashEntry) (m : Migration) (d : Text)
      → check_source lib g state row ≡ ok m
      → structural_definition lib m ≡ ok d
      → classify_row lib g state row accept e
        ≡ dispose lib m row accept (record e {
          current_deploy_sha256 = some m.deploy.sha256;
          new_definition_sha256 = some d;
        })
  unfolding classify_row
  classify_row-disposed row accept e m d passed hashed = ground arith

  classify_row-IsReady :
      (row : AppliedMigration) (accept : Bool) (e : RehashEntry)
      → (classify_row lib g state row accept e).1 ≡ ok tt
      → IsReady row (classify_row lib g state row accept e).0
  unfolding classify_row
  classify_row-IsReady row accept e h = elim (Result-cases (check_source lib g state row)) [
    | inl (x, failed) ↦ absurd (ground arith)
    | inr (m, passed) ↦ elim (Result-cases (structural_definition lib m)) [
      | inl (x, failed) ↦ absurd (ground arith)
      | inr (d, hashed) ↦
          let (f, c) = check_source-eq-ok row m passed in
          let sourced : RehashEntry = record e {
            current_deploy_sha256 = some m.deploy.sha256;
            new_definition_sha256 = some d;
          } in
          let same = classify_row-disposed row accept e m d passed hashed in
          subst (λ (q : RehashEntry × Result (Unit {0})). IsReady row q.0) (sym same)
            (dispose-IsReady m row accept sourced d f c refl hashed
              (ap (λ (q : RehashEntry × Result (Unit {0})). q.1) (sym same) ∙ h))
    ]
  ]

  classify_row-id :
      (row : AppliedMigration) (accept : Bool) (e : RehashEntry)
      → (classify_row lib g state row accept e).0.id ≡ e.id
  unfolding classify_row dispose
  classify_row-id row accept e = ground arith

  noted-none :
      (p : RehashEntry × Result (Unit {0}))
      → (noted lib p).failure ≡ none
      → (p.1 ≡ ok tt) × (noted lib p ≡ p.0)
  noted-none (e, ok done) h = (refl, refl)
  noted-none (e, err x) h = absurd cc

  noted-id : (p : RehashEntry × Result (Unit {0})) → (noted lib p).id ≡ p.0.id
  noted-id (e, ok done) = refl
  noted-id (e, err x) = refl

  pub entry_of-id :
      (row : AppliedMigration) (accept : Bool) → (entry_of lib g state accept row).id ≡ row.id
  unfolding entry_of
  entry_of-id row accept =
      noted-id (classify_row lib g state row accept _) ∙ classify_row-id row accept _

  pub entry_of-IsReady :
      (row : AppliedMigration) (accept : Bool)
      → (entry_of lib g state accept row).failure ≡ none
      → IsReady row (entry_of lib g state accept row)
  unfolding entry_of
  entry_of-IsReady row accept h =
      let (passed, same) = noted-none (classify_row lib g state row accept _) h in
      subst (IsReady row) (sym same) (classify_row-IsReady row accept _ passed)
