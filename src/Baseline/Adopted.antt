-- ===== src/Baseline/Adopted.antt =====
-- What `baseline_under_lock` leaves in the database, whatever the server answers.
use mathlib.Core.Path.{subst}
use zapadka.Common.{
  ◌≡◌, refl, sym, ap, ◌∙◌, true, ◌||◌, not, List, [], ◌∷◌, arith, inl, inr, ◌⊎◌, ◌↔◌, contains,
  contains_key, retain, Bool-cases,
}
use zapadka.Errors.{Error, Result, ok, err, Result-cases, >>=-eq-ok, ◌>>◌, ◌>>=◌}
use zapadka.Manifest.{Uuid, Library}
use zapadka.Migration.{Migration}
use zapadka.Graph.{Graph, build, closure_of}
use zapadka.Graph.Facts.{known}
use zapadka.Graph.Build.{project, AllDistinct}
use zapadka.Graph.Closure.{Needs, ids, closure_of_selects, contains-retain, ids-retain}
use zapadka.Registry.{RegistryState, check_project}
use zapadka.History.{plan}
use zapadka.Server.{Server, Wire, Runner}
use zapadka.Runner.{definitions_of}
use zapadka.Deploy.Steps.{applied_to}
use zapadka.Target.{Access, refresh_state, require_not_blocked, claim_and_upgrade}
use zapadka.Target.Claims.{IsUntouched, claim_and_upgrade-IsUntouched}
use zapadka.Baseline.{pending_of, record_pending, when_claimed, with_pending, baseline_under_lock}
use zapadka.Baseline.Rows.{IsHeld, IsHeld-refl, Baselined, baseline-Baselined}

refresh_state-eq-ok :
    (access : Access) (tables state : RegistryState)
    → refresh_state access tables ≡ ok state
    → state ≡ tables
unfolding refresh_state
refresh_state-eq-ok access tables state h =
    let (_, _, a) =
      >>=-eq-ok (access.read >> check_project tables access.project_id >> access.owned) _ h in
    let e : tables ≡ state = ground arith in sym e

-- The state that is checked is the one that was read.
refreshed :
    (access : Access) (tables state : RegistryState)
    → (refresh_state access tables >>= λ read. require_not_blocked read >> ok read) ≡ ok state
    → state ≡ tables
refreshed access tables state h =
    let (read, a, b) = >>=-eq-ok (refresh_state access tables) _ h in
    let (_, _, c) = >>=-eq-ok (require_not_blocked read) _ b in
    let given : read ≡ state = ground arith in sym given ∙ refresh_state-eq-ok access tables read a

module _ {ℓ} {S : Type ℓ} where
  IsHeld-from :
      (more : List Uuid) (r claimed after : Runner S)
      → IsUntouched r claimed
      → IsHeld more claimed.db after.db
      → IsHeld more r.db after.db
  IsHeld-from more r claimed after same h = record {
    schema = h.schema ∙ same.schema;
    held = λ k. h.held k ∙ ap (λ t. contains_key t k || contains more k) same.applied;
  }

  when_claimed-Baselined :
      (more : List Uuid) (next : Runner S → Runner S × Result (Unit {0})) (r : Runner S)
      (claim : Runner S × Result (Unit {0}))
      → IsUntouched r claim.0
      → ((claimed : Runner S) → Baselined more claimed (next claimed))
      → Baselined more r (when_claimed next claim)
  when_claimed-Baselined more next r (claimed, err x) same h =
      inl (IsHeld-from [] r claimed claimed same (IsHeld-refl claimed.db), (x, refl))
  when_claimed-Baselined more next r (claimed, ok done) same h = elim (h claimed) [
    | inl (held, failed) ↦ inl (IsHeld-from [] r claimed (next claimed).0 same held, failed)
    | inr held ↦ inr (IsHeld-from more r claimed (next claimed).0 same held)
  ]

  -- What is applied already may be counted among what is recorded.
  Baselined-all :
      (closure : List Migration) (r : Runner S) (after : Runner S × Result (Unit {0}))
      → Baselined (ids (retain (λ (m : Migration). not (applied_to r m.id)) closure)) r after
      → Baselined (ids closure) r after
  Baselined-all closure r after (inl failed) = inl failed
  Baselined-all closure r after (inr h) = inr (record {
    schema = h.schema;
    held = λ k.
        let pending = λ (m : Migration). not (applied_to r m.id) in
        let e = ap (λ l. contains l k) (ids-retain (λ i. not (applied_to r i)) closure) in
        let f = contains-retain (λ i. not (applied_to r i)) (ids closure) k in
        ground (arith, h.held k);
  })

module _ {ℓ} {S : Type ℓ} (lib : Library) (server : Server S) (w : Wire) where
  record_pending-Baselined :
      (pending : List Migration) (r : Runner S)
      → Baselined (ids pending) r (record_pending lib server w pending r)
  unfolding record_pending
  record_pending-Baselined [] r = inr (IsHeld-refl r.db)
  record_pending-Baselined (m ∷ ms) r = elim (Result-cases (definitions_of lib server w (m ∷ ms))) [
    | inl (x, failed) ↦ rw (failed, record_pending) (inl (IsHeld-refl r.db, (x, refl)))
    | inr (reports, hashed) ↦
        rw (hashed, record_pending) (baseline-Baselined lib server w (m ∷ ms) r)
  ]

  pending_of-eq-ok :
      (g : Graph) (target : Uuid) (state : RegistryState) (closure pending : List Migration)
      → closure_of g target ≡ ok closure
      → pending_of lib server w g target state ≡ ok pending
      → pending ≡ retain (λ (m : Migration). not (contains_key state.applied m.id)) closure
  unfolding pending_of
  pending_of-eq-ok g target state closure pending e h =
      let (_, _, a) = >>=-eq-ok (plan lib g state.applied) _ h in
      let (found, b, c) = >>=-eq-ok (closure_of g target) _ a in
      let same : closure ≡ found = ground arith in
      let f : retain (λ (m : Migration). not (contains_key state.applied m.id)) found ≡ pending =
        ground arith in
      sym f ∙ ap (retain (λ (m : Migration). not (contains_key state.applied m.id))) (sym same)

  with_pending-Baselined :
      (found : Result (List Migration)) (more : List Uuid) (r : Runner S)
      → ((pending : List Migration) → found ≡ ok pending → ids pending ≡ more)
      → Baselined more r (with_pending lib server w found r)
  with_pending-Baselined (err x) more r h = inl (IsHeld-refl r.db, (x, refl))
  with_pending-Baselined (ok pending) more r h =
      subst (λ l. Baselined l r (record_pending lib server w pending r)) (h pending refl)
        (record_pending-Baselined pending r)

  baseline_under_lock-Baselined :
      (access : Access) (g : Graph) (target : Uuid) (closure : List Migration) (r : Runner S)
      → closure_of g target ≡ ok closure
      → Baselined (ids closure) r (baseline_under_lock lib server w access g target r)
  unfolding baseline_under_lock
  baseline_under_lock-Baselined access g target closure r e =
      elim (Result-cases
        (refresh_state access r.db.state >>= λ read. require_not_blocked read >> ok read)) [
          | inl (x, failed) ↦ rw (failed, baseline_under_lock) (inl (IsHeld-refl r.db, (x, refl)))
          | inr (state, went) ↦
              let found = pending_of lib server w g target state in
              let next = with_pending lib server w found in
              rw (went, baseline_under_lock)
                (Baselined-all closure r (when_claimed next (claim_and_upgrade access r)) (
                  when_claimed-Baselined
                    (ids (retain (λ (m : Migration). not (applied_to r m.id)) closure)) next r
                    (claim_and_upgrade access r) (claim_and_upgrade-IsUntouched access r)
                    (λ claimed. with_pending-Baselined found _ claimed (λ pending h. ap ids (
                      pending_of-eq-ok g target state closure pending e h
                      ∙ ap
                          (λ (t : RegistryState).
                            retain (λ (m : Migration). not (contains_key t.applied m.id)) closure)
                          (refreshed access r.db.state state went))))))
        ]

  -- For a built graph that knows the target, and any answers of the server: a baseline runs nothing
  -- on the schema, and it fails with the same migrations applied as before, or afterwards exactly
  -- those are applied that were before, and what the target transitively needs with the target.
  pub baseline_under_lock_atomic :
      (access : Access) (list : List Migration) (g : Graph) (target : Uuid) (r : Runner S)
      → AllDistinct (project list)
      → build list ≡ ok g
      → known g target ≡ true
      → ((baseline_under_lock lib server w access g target r).0.db.schema ≡ r.db.schema)
        × (((x : Error) × ((baseline_under_lock lib server w access g target r).1 ≡ err x))
              × ((k : Uuid)
                  → applied_to (baseline_under_lock lib server w access g target r).0 k
                    ≡ applied_to r k)
            ⊎ ((k : Uuid)
                → (applied_to (baseline_under_lock lib server w access g target r).0 k ≡ true)
                  ↔ (applied_to r k ≡ true ⊎ Needs g target k)))
  baseline_under_lock_atomic access list g target r separate h is_known =
      let (closure, selected, needs, _) = closure_of_selects list g target separate h is_known in
      elim (baseline_under_lock-Baselined access g target closure r selected) [
        | inl (same, failed) ↦ (same.schema, inl (failed, λ k. ground (arith, same.held k)))
        | inr more ↦ (
          more.schema,
          inr (λ k. (
            λ m. elim (Bool-cases (applied_to r k)) [
              | inl before ↦ inl before
              | inr fresh ↦ inr ((needs k).0 (ground (arith, more.held k)))
            ],
            λ c. elim c [
              | inl before ↦ ground (arith, more.held k)
              | inr need ↦ let f = (needs k).1 need in ground (arith, more.held k)
            ],
          )),
        )
      ]
