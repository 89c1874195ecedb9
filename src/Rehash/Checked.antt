-- ===== src/Rehash/Checked.antt =====
-- Every row that a conversion leaves behind passes the history check.
use mathlib.Core.Path.{subst, fun_ext}
use zapadka.Common.{
  ◌≡◌, refl, ap, sym, ◌∙◌, Text, Bool, true, false, List, [], ◌∷◌, map, none, some, arith, inl, inr,
  Bool-cases, Option-cases, get, values, text_eq_refl, ◌==◌, Member, first, later, contains_key,
  not, is_empty, retain,
}
use zapadka.Errors.{ok, new, history_migration_missing}
use zapadka.Manifest.{Uuid, Library, guard}
use zapadka.Migration.{Migration, depends, structural_definition}
use zapadka.Graph.{Graph}
use zapadka.Registry.{AppliedMigration, check_definition_algorithm}
use zapadka.History.{check_row, check_unchanged, check_dependencies_applied}
use zapadka.Rehash.{RehashEntry, Ledger, converts, entry_of, check_entries}
use zapadka.Rehash.Entries.{IsReady, entry_of-IsReady}
use zapadka.Rehash.Conversion.{with_definition, row_at, Outcome, kept, converted}

Member-values :
    (m : List (Uuid × AppliedMigration)) (k : Uuid) (row : AppliedMigration)
    → get m k ≡ some row
    → Member row (values m)
Member-values [] k row h = absurd cc
Member-values ((j, w) ∷ m) k row h = elim (Bool-cases (j == k)) [
  | inl here ↦ let e : w ≡ row = ground arith in subst (λ r. Member r (w ∷ values m)) e first
  | inr apart ↦ later (Member-values m k row (ground arith))
]

check_entries-none :
    (f : AppliedMigration → RehashEntry) (rows : List AppliedMigration) (row : AppliedMigration)
    → check_entries (map f rows) ≡ ok tt
    → Member row rows
    → (f row).failure ≡ none
unfolding check_entries
check_entries-none f [] row h m = elim m [ ]
check_entries-none f (r ∷ rows) _ h first = elim (Option-cases (f r).failure) [
  | inl fine ↦ fine
  | inr (x, failed) ↦ absurd (ground arith)
]
check_entries-none f (r ∷ rows) row h (later m) = elim (Option-cases (f r).failure) [
  | inl fine ↦ check_entries-none f rows row (ground arith) m
  | inr (x, failed) ↦ absurd (ground arith)
]

check_unchanged-converted :
    (lib : Library) (m : Migration) (old : AppliedMigration) (d : Text)
    → structural_definition lib m ≡ ok d
    → check_unchanged lib m (with_definition old d) ≡ ok tt
unfolding check_unchanged check_definition_algorithm
check_unchanged-converted lib m old d h = ground (arith, text_eq_refl d)

check_dependencies_applied-same :
    (m : Migration) (before after : List (Uuid × AppliedMigration))
    → ((d : Uuid) → contains_key after d ≡ contains_key before d)
    → check_dependencies_applied m before ≡ ok tt
    → check_dependencies_applied m after ≡ ok tt
unfolding check_dependencies_applied
check_dependencies_applied-same m before after e h =
    ap
      (λ (c : Uuid → Bool).
        guard (is_empty (retain (λ d. not (c d)) (depends m))) (new history_migration_missing))
      (fun_ext e)
    ∙ h

module _ (lib : Library) (g : Graph) (accept : Bool) (l : Ledger) where
  abbrev pub entry_for : AppliedMigration → RehashEntry
  entry_for = entry_of lib g l.state accept

  -- The row is the one that was there, under its structural definition, and the history check
  -- accepts it.
  pub record IsCurrent (after : Ledger) (k : Uuid) (row : AppliedMigration) : Type 0 where
    pub old : AppliedMigration
    pub before : row_at l k ≡ some old
    pub same : row ≡ with_definition old row.definition_sha256
    pub accepted : check_row lib g after.state.applied k row ≡ ok tt

  check_row-ok :
      (applied : List (Uuid × AppliedMigration)) (k : Uuid) (row : AppliedMigration) (m : Migration)
      → get g.migrations k ≡ some m
      → check_unchanged lib m row ≡ ok tt
      → check_dependencies_applied m applied ≡ ok tt
      → check_row lib g applied k row ≡ ok tt
  unfolding check_row
  check_row-ok applied k row m f u c = ground arith

  Outcome-contains :
      (after : Ledger) (k : Uuid)
      → Outcome entry_for (values l.state.applied) l after k
      → contains_key after.state.applied k ≡ contains_key l.state.applied k
  Outcome-contains after k (kept same others) = ground arith
  Outcome-contains after k (converted row old d m i c n o w) = ground arith

  module _ (after : Ledger)
      (outcome : (k : Uuid) → Outcome entry_for (values l.state.applied) l after k)
      (passed : check_entries (map entry_for (values l.state.applied)) ≡ ok tt)
      (keyed : (k : Uuid) (row : AppliedMigration) → row_at l k ≡ some row → row.id ≡ k) where
    closed_after :
        (m : Migration)
        → check_dependencies_applied m l.state.applied ≡ ok tt
        → check_dependencies_applied m after.state.applied ≡ ok tt
    closed_after m =
        check_dependencies_applied-same m l.state.applied after.state.applied
          (λ k. Outcome-contains after k (outcome k))

    IsReady-row :
        (row : AppliedMigration)
        → Member row (values l.state.applied)
        → IsReady lib g l.state row (entry_for row)
    IsReady-row row m =
        entry_of-IsReady lib g l.state row accept
          (check_entries-none entry_for (values l.state.applied) row passed m)

    IsCurrent-of_kept :
        (k : Uuid) (row : AppliedMigration)
        → row_at l k ≡ some row
        → converts (entry_for row).disposition ≡ false
        → IsCurrent after k row
    IsCurrent-of_kept k row held quiet =
        let r = IsReady-row row (Member-values l.state.applied k row held) in
        elim r.ready [
          | inl (loud, _) ↦ absurd cc
          | inr (_, unchanged, current) ↦ record {
            old = row;
            before = held;
            same = ap (λ (a : Text). record row { definition_algorithm = a }) current;
            accepted =
                check_row-ok after.state.applied k row r.source
                  (ap (get g.migrations) (sym (keyed k row held)) ∙ r.found) unchanged
                  (closed_after r.source r.closed);
          }
        ]

    IsCurrent-of_converted :
        (k : Uuid) (row old : AppliedMigration) (d : Text)
        → Member row (values l.state.applied)
        → row.id ≡ k
        → converts (entry_for row).disposition ≡ true
        → (entry_for row).new_definition_sha256 ≡ some d
        → row_at l k ≡ some old
        → IsCurrent after k (with_definition old d)
    IsCurrent-of_converted k row old d m i loud given o =
        let r = IsReady-row row m in
        elim r.ready [
          | inr (quiet, _, _) ↦ absurd cc
          | inl (_, (d', n, hashed)) ↦ record {
            old = old;
            before = o;
            same = refl;
            accepted =
                check_row-ok after.state.applied k (with_definition old d) r.source
                  (ap (get g.migrations) (sym i) ∙ r.found)
                  (check_unchanged-converted lib r.source old d
                    (let e : d' ≡ d = cc in hashed ∙ ap ok e))
                  (closed_after r.source r.closed);
          }
        ]

    pub all-IsCurrent :
        (k : Uuid) (row : AppliedMigration) → row_at after k ≡ some row → IsCurrent after k row
    all-IsCurrent k row h = elim (outcome k) [
      | kept same others ↦
          let held : row_at l k ≡ some row = sym same ∙ h in
          IsCurrent-of_kept k row held
            (others row (Member-values l.state.applied k row held) (keyed k row held))
      | converted r old d m i c n o w ↦
          let e : with_definition old d ≡ row = cc in
          subst (IsCurrent after k) e (IsCurrent-of_converted k r old d m i c n o)
    ]
