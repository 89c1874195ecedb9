-- ===== src/Rehash/Atomic.antt =====
-- A rehash leaves a table that the history check accepts, or leaves the table as it was.
use mathlib.Core.Path.{subst}
use zapadka.Common.{
  ◌≡◌, ◌⊎◌, refl, ap, sym, ◌∙◌, Text, Bool, true, false, List, [], ◌∷◌, map, Option, some, arith,
  inl, inr, Bool-cases, get, values, Member, first, later, not, ◌||◌, is_empty,
}
use zapadka.Errors.{
  Error, Result, ok, err, Result-cases, ◌>>=◌, ◌>>◌, >>=-eq-ok, new, registry_not_initialized,
  history_definition_changed, registry_blocked,
}
use zapadka.Manifest.{Uuid, Library, guard}
use zapadka.Migration.{require}
use zapadka.Graph.{Graph}
use zapadka.Registry.{AppliedMigration, upgrade_in_transaction, registry_failed, is_initialized}
use zapadka.Rehash.{
  RehashEntry, Ledger, Grants, converts, plan_rehash, check_entries, is_settled, convert, rehash,
  states_reason, end_commit,
}
use zapadka.Server.{Commit, committed, refused, lost}
use zapadka.Rehash.Entries.{entry_of-id}
use zapadka.Rehash.Conversion.{row_at, Outcome, kept, converted, apply_entries-Outcome}
use zapadka.Registry.Upgrading.{upgrade_in_transaction-applied}
use zapadka.Rehash.Checked.{IsCurrent, all-IsCurrent, entry_for}

ok_injective {ℓ} : {A : Type ℓ} {a b : A} → ok a ≡ ok b → a ≡ b
ok_injective h = cc

settled-quiet :
    (f : AppliedMigration → RehashEntry) (rows : List AppliedMigration) (row : AppliedMigration)
    → is_settled (map f rows) ≡ true
    → Member row rows
    → converts (f row).disposition ≡ false
settled-quiet f [] row h m = elim m [ ]
settled-quiet f (r ∷ rows) _ h first = ground arith
settled-quiet f (r ∷ rows) row h (later m) = settled-quiet f rows row (ground arith) m

module _ (lib : Library) (g : Graph) (accept : Bool) (l : Ledger) where
  -- What a rehash that succeeds went through.
  prepare : Option Text → Result (List RehashEntry)
  prepare reason =
      guard (not accept || states_reason reason) (new history_definition_changed)
      >> plan_rehash lib g l.state accept
      >>= λ entries. check_entries entries >> ok entries

  planned_entries :
      (fs : List RehashEntry)
      → plan_rehash lib g l.state accept ≡ ok fs
      → fs ≡ map (entry_for lib g accept l) (values l.state.applied)
  unfolding plan_rehash
  planned_entries fs h =
      let (_, _, a) =
        >>=-eq-ok (guard (is_initialized l.state) (new registry_not_initialized)) _ h in
      let (_, _, b) = >>=-eq-ok (guard (is_empty l.state.unresolved) (new registry_blocked)) _ a in
      sym (ok_injective b)

  prepare-eq-ok :
      (reason : Option Text) (es : List RehashEntry)
      → prepare reason ≡ ok es
      → (es ≡ map (entry_for lib g accept l) (values l.state.applied)) × (check_entries es ≡ ok tt)
  unfolding prepare
  prepare-eq-ok reason es h =
      let (fs, planned, rest) =
        >>=-eq-ok
          (guard (not accept || states_reason reason) (new history_definition_changed)
            >> plan_rehash lib g l.state accept)
          _ h in
      let (_, passed, same) = >>=-eq-ok (check_entries fs) (λ _. ok fs) rest in
      let (_, _, mapped) =
        >>=-eq-ok (guard (not accept || states_reason reason) (new history_definition_changed))
          (λ _. plan_rehash lib g l.state accept) planned in
      let e : fs ≡ es = ok_injective same in
      (sym e ∙ planned_entries fs mapped, ap check_entries (sym e) ∙ passed)

  transact : Grants → Option Text → List RehashEntry → Result Ledger
  transact granted reason es =
      require l.state.project_id (new registry_not_initialized) >>= λ project_id.
      convert granted reason project_id es l

  Outcome-from :
      (start after : Ledger) (k : Uuid)
      → row_at start k ≡ row_at l k
      → Outcome (entry_for lib g accept l) (values l.state.applied) start after k
      → Outcome (entry_for lib g accept l) (values l.state.applied) l after k
  Outcome-from start after k e (kept same others) = kept (same ∙ e) others
  Outcome-from start after k e (converted row old d m i c n o w) =
      converted row old d m i c n (sym e ∙ o) w

  transact-Outcome :
      (granted : Grants) (reason : Option Text) (after : Ledger) (k : Uuid)
      → transact granted reason (map (entry_for lib g accept l) (values l.state.applied)) ≡ ok after
      → Outcome (entry_for lib g accept l) (values l.state.applied) l after k
  unfolding transact convert
  transact-Outcome granted reason after k h =
      let (project_id, _, a) =
        >>=-eq-ok (require l.state.project_id (new registry_not_initialized)) _ h in
      let (_, _, b) = >>=-eq-ok (guard granted.begin registry_failed) _ a in
      let (state, upgraded, c) =
        >>=-eq-ok (upgrade_in_transaction granted.upgrade project_id l.state) _ b in
      let same = upgrade_in_transaction-applied granted.upgrade project_id l.state state upgraded in
      Outcome-from (record l { state = state }) after k
        (ap (λ (t : List (Uuid × AppliedMigration)). get t k) same)
        (apply_entries-Outcome (entry_for lib g accept l)
          (λ row. entry_of-id lib g l.state row accept) granted reason (values l.state.applied)
          (record l { state = state }) after k c)

  rehash-refused :
      (granted : Grants) (ending : Commit) (reason : Option Text) (x : Error)
      → prepare reason ≡ err x
      → rehash lib g granted ending accept reason l ≡ (l, err x)
  unfolding rehash prepare
  rehash-refused granted ending reason x h = ground arith

  rehash-settled :
      (granted : Grants) (ending : Commit) (reason : Option Text) (es : List RehashEntry)
      → prepare reason ≡ ok es
      → is_settled es ≡ true
      → rehash lib g granted ending accept reason l ≡ (l, ok es)
  unfolding rehash prepare
  rehash-settled granted ending reason es h s = ground arith

  rehash-undone :
      (granted : Grants) (ending : Commit) (reason : Option Text) (es : List RehashEntry)
      (x : Error)
      → prepare reason ≡ ok es
      → is_settled es ≡ false
      → transact granted reason es ≡ err x
      → rehash lib g granted ending accept reason l ≡ (l, err x)
  unfolding rehash prepare transact
  rehash-undone granted ending reason es x h s t = ground arith

  rehash-converted :
      (granted : Grants) (ending : Commit) (reason : Option Text) (es : List RehashEntry)
      (after : Ledger)
      → prepare reason ≡ ok es
      → is_settled es ≡ false
      → transact granted reason es ≡ ok after
      → rehash lib g granted ending accept reason l ≡ end_commit ending l after es
  unfolding rehash prepare transact
  rehash-converted granted ending reason es after h s t = ground arith

  -- It failed with the tables as they were, or every row is current after it; then it succeeded, or
  -- the connection was lost at a commit that was kept.
  abbrev pub IsRehashed : Commit → Ledger × Result (List RehashEntry) → Type 0
  IsRehashed ending p =
      ((x : Error) × (p ≡ (l, err x)))
      ⊎ ((p.1 ≡ ok (map (entry_for lib g accept l) (values l.state.applied)))
          ⊎ (p.1 ≡ err registry_failed) × (ending ≡ lost true))
        × ((k : Uuid) (row : AppliedMigration)
            → row_at p.0 k ≡ some row
            → IsCurrent lib g accept l p.0 k row)

  module _ (granted : Grants) (ending : Commit) (reason : Option Text)
      (keyed : (k : Uuid) (row : AppliedMigration) → row_at l k ≡ some row → row.id ≡ k) where
    settled_rehash :
        (es : List RehashEntry)
        → prepare reason ≡ ok es
        → is_settled es ≡ true
        → IsRehashed ending (l, ok es)
    settled_rehash es h s =
        let (e, passed) = prepare-eq-ok reason es h in
        let settled = ap is_settled (sym e) ∙ s in
        inr (
          inl (ap ok e),
          all-IsCurrent lib g accept l l
              (λ k. kept refl (λ row m i.
                settled-quiet (entry_for lib g accept l) (values l.state.applied) row settled m))
              (ap check_entries (sym e) ∙ passed) keyed,
        )

    ended_rehash :
        (es : List RehashEntry) (after : Ledger)
        → prepare reason ≡ ok es
        → transact granted reason es ≡ ok after
        → IsRehashed ending (end_commit ending l after es)
    unfolding end_commit
    ended_rehash es after h t =
        let (e, passed) = prepare-eq-ok reason es h in
        let current =
          all-IsCurrent lib g accept l after
            (λ k.
              transact-Outcome granted reason after k (ap (transact granted reason) (sym e) ∙ t))
            (ap check_entries (sym e) ∙ passed) keyed in
        elim ending as (λ c. IsRehashed c (end_commit c l after es)) [
          | committed ↦ inr (inl (ap ok e), current)
          | refused ↦ inl (registry_failed, refl)
          | lost true ↦ inr (inr (refl, refl), current)
          | lost false ↦ inl (registry_failed, refl)
        ]

    -- A rehash fails with the tables as they were, or leaves a table in which every row is one that
    -- was there, under its structural definition and otherwise unchanged, and passes the history
    -- check; in the second case it succeeds, or the connection was lost at a commit that was kept. Each row is to stand at
    -- its own identity.
    pub rehash_lem : IsRehashed ending (rehash lib g granted ending accept reason l)
    rehash_lem = elim (Result-cases (prepare reason)) [
      | inl (x, stopped) ↦ inl (x, rehash-refused granted ending reason x stopped)
      | inr (es, prepared) ↦ elim (Bool-cases (is_settled es)) [
        | inl settled ↦
            subst (IsRehashed ending)
              (sym (rehash-settled granted ending reason es prepared settled))
              (settled_rehash es prepared settled)
        | inr unsettled ↦ elim (Result-cases (transact granted reason es)) [
          | inl (x, failed) ↦
              inl (x, rehash-undone granted ending reason es x prepared unsettled failed)
          | inr (after, went) ↦
              subst (IsRehashed ending)
                (sym (rehash-converted granted ending reason es after prepared unsettled went))
                (ended_rehash es after prepared went)
        ]
      ]
    ]
