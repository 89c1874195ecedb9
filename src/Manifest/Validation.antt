-- ===== src/Manifest/Validation.antt =====
-- `Manifest::validate` accepts exactly the manifests that keep every rule.
use zapadka.Common.{
  ◌≡◌, refl, true, false, not, List, [], ◌∷◌, Option, none, some, arith, Text, trim, is_empty,
  contains, add, contains-add, IsNodup, All, Bool, ◌↔◌, is_some,
}
use zapadka.Errors.{ok}
use zapadka.Manifest.{
  Uuid, Library, Manifest, Allow, Reversibility, reversible, irreversible, is_reversible,
  check_repeats, stated_reason, check_reason, check_allows, validate,
}

-- A reason that is more than blanks.
abbrev pub states_reason : Manifest → Bool
states_reason m = is_some (stated_reason m.irreversible_reason)

abbrev pub HasReason : Allow → Type 0
HasReason a = is_empty (trim a.reason) ≡ false

-- The rules of `validate`, in the order of its checks.
pub record IsValid (lib : Library) (m : Manifest) : Type 0 where
  pub version : m.format_version ≡ 1
  pub version_seven : lib.get_version_num m.id ≡ 7
  pub not_self : contains m.depends m.id ≡ false
  pub distinct : IsNodup m.depends
  pub reasoned : states_reason m ≡ not (is_reversible m.reversibility)
  pub allows : All HasReason m.allow

check_repeats_sound :
    (path : Text) (seen ds : List Uuid)
    → check_repeats path seen ds ≡ ok tt
    → IsNodup ds × ((c : Uuid) → contains ds c ≡ true → contains seen c ≡ false)
unfolding check_repeats
check_repeats_sound path seen [] h = (tt, λ c m. cc)
check_repeats_sound path seen (d ∷ ds) h =
    let (once, apart) = check_repeats_sound path (add d seen) ds (ground arith) in
    (
      (ground (arith, apart d, contains-add d seen d), once),
      λ c m. ground (arith, apart c, contains-add d seen c),
    )

check_repeats_complete :
    (path : Text) (seen ds : List Uuid)
    → IsNodup ds
    → ((c : Uuid) → contains ds c ≡ true → contains seen c ≡ false)
    → check_repeats path seen ds ≡ ok tt
unfolding check_repeats
check_repeats_complete path seen [] once apart = refl
check_repeats_complete path seen (d ∷ ds) once apart = ground (
  arith,
  apart d,
  check_repeats_complete path (add d seen) ds once.1
      (λ c m. ground (arith, apart c, contains-add d seen c)),
)

check_allows_sound :
    (path : Text) (list : List Allow) → check_allows path list ≡ ok tt → All HasReason list
unfolding check_allows
check_allows_sound path [] h = tt
check_allows_sound path (a ∷ rest) h = (ground arith, check_allows_sound path rest (ground arith))

check_allows_complete :
    (path : Text) (list : List Allow) → All HasReason list → check_allows path list ≡ ok tt
unfolding check_allows
check_allows_complete path [] h = refl
check_allows_complete path (a ∷ rest) h = ground (arith, check_allows_complete path rest h.1)

check_reason_iff :
    (path : Text) (r : Reversibility) (reason : Option Text)
    → (check_reason path r reason ≡ ok tt) ↔ (is_some reason ≡ not (is_reversible r))
unfolding check_reason
check_reason_iff path reversible none = (λ h. refl, λ h. refl)
check_reason_iff path reversible (some x) = (λ h. cc, λ h. cc)
check_reason_iff path irreversible none = (λ h. cc, λ h. cc)
check_reason_iff path irreversible (some x) = (λ h. refl, λ h. refl)

module _ (lib : Library) (path : Text) (m : Manifest) where
  -- The checks one after another.
  record Passed : Type 0 where
    version : m.format_version ≡ 1
    version_seven : lib.get_version_num m.id ≡ 7
    not_self : contains m.depends m.id ≡ false
    repeats : check_repeats path [] m.depends ≡ ok tt
    reason : check_reason path m.reversibility (stated_reason m.irreversible_reason) ≡ ok tt
    allows : check_allows path m.allow ≡ ok tt

  validate-Passed : validate lib path m ≡ ok tt → Passed
  unfolding validate
  validate-Passed h = ground arith

  Passed-validate : Passed → validate lib path m ≡ ok tt
  unfolding validate
  Passed-validate p = ground arith

-- A manifest is accepted exactly when it has the known version and a UUIDv7 identity, names neither
-- itself nor any dependency twice, states a reason if and only if it is irreversible, and gives a
-- reason for each accepted warning.
pub validate_iff :
    (lib : Library) (path : Text) (m : Manifest) → (validate lib path m ≡ ok tt) ↔ IsValid lib m
validate_iff lib path m = (
  λ h.
      let p = validate-Passed lib path m h in
      record {
        version = p.version;
        version_seven = p.version_seven;
        not_self = p.not_self;
        distinct = (check_repeats_sound path [] m.depends p.repeats).0;
        reasoned =
            (check_reason_iff path m.reversibility (stated_reason m.irreversible_reason)).0
              p.reason;
        allows = check_allows_sound path m.allow p.allows;
      },
  λ v. Passed-validate lib path m (record {
    version = v.version;
    version_seven = v.version_seven;
    not_self = v.not_self;
    repeats = check_repeats_complete path [] m.depends v.distinct (λ c h. refl);
    reason =
        (check_reason_iff path m.reversibility (stated_reason m.irreversible_reason)).1 v.reasoned;
    allows = check_allows_complete path m.allow v.allows;
  }),
)
