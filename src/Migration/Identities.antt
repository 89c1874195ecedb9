-- ===== src/Migration/Identities.antt =====
-- The check for duplicate identities passes exactly the projects that have none.
use zapadka.Common.{
  ◌≡◌, refl, true, false, List, [], ◌∷◌, arith, contains, contains_key, get-insert, insert, IsNodup,
  ◌↔◌, ◌==◌, Bool-cases, inl, inr, ap,
}
use zapadka.Errors.{ok}
use zapadka.Manifest.{Uuid}
use zapadka.Migration.{Migration, check_ids, check_for_duplicate_ids}

abbrev pub identities : List Migration → List Uuid
identities [] = []
identities (m ∷ ms) = m.id ∷ identities ms

check_ids_sound :
    (by_id : List (Uuid × Migration)) (ms : List Migration)
    → check_ids by_id ms ≡ ok tt
    → IsNodup (identities ms)
      × ((k : Uuid) → contains (identities ms) k ≡ true → contains_key by_id k ≡ false)
unfolding check_ids
check_ids_sound by_id [] h = (tt, λ k m. cc)
check_ids_sound by_id (x ∷ ms) h =
    let (once, apart) = check_ids_sound (insert x.id x by_id) ms (ground arith) in
    (
      (ground (arith, apart x.id, get-insert x.id x by_id x.id), once),
      λ k m. elim (Bool-cases (x.id == k)) [
        | inl same ↦
            let e : x.id ≡ k = ground arith in let f = ap (contains_key by_id) e in ground arith
        | inr other ↦ ground (arith, apart k, get-insert x.id x by_id k)
      ],
    )

check_ids_complete :
    (by_id : List (Uuid × Migration)) (ms : List Migration)
    → IsNodup (identities ms)
    → ((k : Uuid) → contains (identities ms) k ≡ true → contains_key by_id k ≡ false)
    → check_ids by_id ms ≡ ok tt
unfolding check_ids
check_ids_complete by_id [] once apart = refl
check_ids_complete by_id (x ∷ ms) (new_one, once) apart =
    let rest = check_ids_complete (insert x.id x by_id) ms once (λ k m.
      elim (Bool-cases (x.id == k)) [
        | inl same ↦
            absurd
              (let e : x.id ≡ k = ground arith in let f = ap (contains (identities ms)) e in cc)
        | inr other ↦ ground (arith, apart k, get-insert x.id x by_id k)
      ]) in
    let first = apart x.id (ground arith) in ground arith

-- The check succeeds exactly when no two migrations of the list have the same identity.
pub check_for_duplicate_ids_iff :
    (ms : List Migration) → (check_for_duplicate_ids ms ≡ ok tt) ↔ IsNodup (identities ms)
check_for_duplicate_ids_iff ms =
    (λ h. (check_ids_sound [] ms h).0, λ once. check_ids_complete [] ms once (λ k m. refl))
