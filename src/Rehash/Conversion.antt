-- ===== src/Rehash/Conversion.antt =====
-- What a conversion leaves in the table of applied migrations, row by row.
use zapadka.Common.{
  ◌≡◌, ap, sym, ◌∙◌, Text, true, false, List, [], ◌∷◌, map, Option, none, some, arith, inl, inr,
  Bool-cases, Option-cases, get, insert, get-insert, ◌==◌, ==_iff, if◌then◌else◌, Member, first,
  later,
}
use zapadka.Errors.{Error, ok, >>=-eq-ok}
use zapadka.Manifest.{Uuid, guard}
use zapadka.Migration.{require}
use zapadka.Registry.{AppliedMigration, RegistryState, structural_v1, registry_failed}
use zapadka.Rehash.{
  RehashEntry, Ledger, Grants, converts, update_identity, apply_entry, apply_entries,
}

abbrev pub with_definition : AppliedMigration → Text → AppliedMigration
with_definition row definition = record row {
  definition_sha256 = definition;
  definition_algorithm = structural_v1;
}

abbrev pub row_at : Ledger → Uuid → Option AppliedMigration
row_at l k = get l.state.applied k

update_identity-eq-ok :
    (e : RehashEntry) (d : Text) (state after : RegistryState)
    → update_identity e d state ≡ ok after
    → (old : AppliedMigration) × (get state.applied e.id ≡ some old)
      × ((k : Uuid)
          → get after.applied k
            ≡ (if e.id == k then some (with_definition old d) else get state.applied k))
unfolding update_identity
update_identity-eq-ok e d state after h = elim (Option-cases (get state.applied e.id)) [
  | inl absent ↦ absurd (ground arith)
  | inr (old, present) ↦
      let written : (record state { applied = insert e.id (with_definition old d) state.applied })
          ≡ after =
        ground arith in
      (
        old,
        present,
        λ k.
            ap (λ (s : RegistryState). get s.applied k) (sym written)
            ∙ get-insert e.id (with_definition old d) state.applied k,
      )
]

pub require-eq-ok :
    {A : Type 0} (o : Option A) (e : Error) (a : A) → require o e ≡ ok a → o ≡ some a
require-eq-ok none e a h = cc
require-eq-ok (some b) e a h = cc

apply_entry-eq-ok :
    (granted : Grants) (reason : Option Text) (e : RehashEntry) (l after : Ledger)
    → apply_entry granted reason e l ≡ ok after
    → (d : Text) × (e.new_definition_sha256 ≡ some d)
      × (old : AppliedMigration) × (row_at l e.id ≡ some old)
      × ((k : Uuid)
          → row_at after k ≡ (if e.id == k then some (with_definition old d) else row_at l k))
unfolding apply_entry
apply_entry-eq-ok granted reason e l after h =
    let (_, _, a) = >>=-eq-ok (guard (granted.update e.id) registry_failed) _ h in
    let (d, given, b) = >>=-eq-ok (require e.new_definition_sha256 registry_failed) _ a in
    let (state, updated, c) = >>=-eq-ok (update_identity e d l.state) _ b in
    let (old, present, at_each) = update_identity-eq-ok e d l.state state updated in
    let (_, _, f) = >>=-eq-ok (guard (granted.audit e.id) registry_failed) _ c in
    let same : state ≡ after.state = ground arith in
    (
      d,
      require-eq-ok e.new_definition_sha256 registry_failed d given,
      old,
      present,
      λ k. ap (λ (s : RegistryState). get s.applied k) (sym same) ∙ at_each k,
    )

-- The row at a key after the entries of some rows were applied: it is what it was, and no entry
-- for the key converts; or an entry for the key gave it its new definition.
pub data Outcome (entry_for : AppliedMigration → RehashEntry) (rows : List AppliedMigration)
    (l after : Ledger) (k : Uuid) : Type 0 where
  kept :
      row_at after k ≡ row_at l k
      → ((row : AppliedMigration)
          → Member row rows
          → row.id ≡ k
          → converts (entry_for row).disposition ≡ false)
      → Outcome entry_for rows l after k
  converted :
      (row old : AppliedMigration) (d : Text)
      → Member row rows
      → row.id ≡ k
      → converts (entry_for row).disposition ≡ true
      → (entry_for row).new_definition_sha256 ≡ some d
      → row_at l k ≡ some old
      → row_at after k ≡ some (with_definition old d)
      → Outcome entry_for rows l after k

module _ (entry_for : AppliedMigration → RehashEntry)
    (same_id : (row : AppliedMigration) → (entry_for row).id ≡ row.id) where
  abbrev IsQuiet : AppliedMigration → Type 0
  IsQuiet row = converts (entry_for row).disposition ≡ false

  abbrev AllQuiet : List AppliedMigration → Uuid → Type 0
  AllQuiet rows k = (row : AppliedMigration) → Member row rows → row.id ≡ k → IsQuiet row

  AllQuiet-cons :
      (row : AppliedMigration) (rows : List AppliedMigration) (k : Uuid)
      → (row.id ≡ k → IsQuiet row)
      → AllQuiet rows k
      → AllQuiet (row ∷ rows) k
  AllQuiet-cons row rows k here others _ first e = here e
  AllQuiet-cons row rows k here others r (later m) e = others r m e

  -- A row whose entry converts nothing.
  Outcome-skip :
      (row : AppliedMigration) (rows : List AppliedMigration) (l after : Ledger) (k : Uuid)
      → IsQuiet row
      → Outcome entry_for rows l after k
      → Outcome entry_for (row ∷ rows) l after k
  Outcome-skip row rows l after k q (kept same others) =
      kept same (AllQuiet-cons row rows k (λ e. q) others)
  Outcome-skip row rows l after k q (converted r old d m i c n o w) =
      converted r old d (later m) i c n o w

  -- A row whose entry gives it another definition, before the entries of the other rows.
  Outcome-convert :
      (row : AppliedMigration) (rows : List AppliedMigration) (l between after : Ledger) (k : Uuid)
      (old : AppliedMigration) (d : Text)
      → converts (entry_for row).disposition ≡ true
      → (entry_for row).new_definition_sha256 ≡ some d
      → row_at l row.id ≡ some old
      → row_at between k ≡ (if row.id == k then some (with_definition old d) else row_at l k)
      → Outcome entry_for rows between after k
      → Outcome entry_for (row ∷ rows) l after k
  Outcome-convert row rows l between after k old d c n o step (kept same others) =
      elim (Bool-cases (row.id == k)) [
        | inl here ↦
            let e = (==_iff row.id k).0 here in
            converted row old d first e c n (ap (row_at l) (sym e) ∙ o) (ground arith)
        | inr apart ↦
            kept (ground arith)
              (AllQuiet-cons row rows k (λ e. absurd (let f = (==_iff row.id k).1 e in cc)) others)
      ]
  Outcome-convert row rows l between after k old d c n o step (converted r mid d' m i c' n' o' w) =
      elim (Bool-cases (row.id == k)) [
        | inl here ↦
            let e = (==_iff row.id k).0 here in
            converted r old d' (later m) i c' n' (ap (row_at l) (sym e) ∙ o) (ground arith)
        | inr apart ↦ converted r mid d' (later m) i c' n' (ground arith) w
      ]

  pub apply_entries-Outcome :
      (granted : Grants) (reason : Option Text) (rows : List AppliedMigration) (l after : Ledger)
      (k : Uuid)
      → apply_entries granted reason (map entry_for rows) l ≡ ok after
      → Outcome entry_for rows l after k
  unfolding apply_entries
  apply_entries-Outcome granted reason [] l after k h =
      let same : l ≡ after = ground arith in
      kept (ap (λ (t : Ledger). row_at t k) (sym same)) (λ row m e. elim m [ ])
  apply_entries-Outcome granted reason (row ∷ rows) l after k h =
      elim (Bool-cases (converts (entry_for row).disposition)) [
        | inr q ↦
            Outcome-skip row rows l after k q
              (apply_entries-Outcome granted reason rows l after k (rw q at h))
        | inl c ↦
            let (between, one, rest) =
              >>=-eq-ok (apply_entry granted reason (entry_for row) l) _ (rw c at h) in
            let (d, n, old, o, step) =
              apply_entry-eq-ok granted reason (entry_for row) l between one in
            let e = same_id row in
            Outcome-convert row rows l between after k old d c n (ap (row_at l) (sym e) ∙ o)
              (step k ∙ ap (λ i. if i == k then some (with_definition old d) else row_at l k) e)
              (apply_entries-Outcome granted reason rows between after k rest)
      ]
