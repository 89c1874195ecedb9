-- ===== src/Manifest.antt =====
-- crates/zapadka-core/src/manifest.rs: `migration.toml`, its validation and its canonical form.
-- TOML, the `uuid` crate, SHA-256 and what the parser calls are not code of this repository: `Library`
-- holds what the code calls of them. A UUID is the number that its 128 bits spell, so `Ord` for
-- `Uuid` is the order of the numbers.
pub mod Validation
pub mod Canonical
pub mod Examples
use zapadka.Common.{
  ℕ, Text, codes, text_eq, trim, is_empty, Bool, true, false, not, List, [], ◌∷◌, ◌++◌, map, Option,
  none, some, ◌==◌, if◌then◌else◌, contains, add, find,
}
use zapadka.Common.Sort.{sort, text_leb}
use zapadka.Sql.Parser.{Parser, parsed, malformed}
use zapadka.Sql.Canonical.{canonicalize}
use zapadka.Errors.{
  Error, Result, ok, err, new, at, file, ◌>>◌, manifest_invalid,
  manifest_unsupported_format_version, migration_id_invalid, graph_self_dependency,
  migration_reversibility_invalid, script_parse_error,
}

abbrev pub Uuid : Type 0
Uuid = ℕ

-- What the code calls of packages that are not in this repository.
pub record Library : Type 0 where
  pub to_string : Uuid → Text
  pub parse_str : Text → Option Uuid
  pub get_version_num : Uuid → ℕ
  pub sha256_hex : Text → Text
  pub parser : Parser

pub data Transaction : Type 0 where
  required forbidden : Transaction

pub data Reversibility : Type 0 where
  reversible irreversible : Reversibility

abbrev pub is_reversible : Reversibility → Bool
is_reversible reversible = true
is_reversible irreversible = false

-- `Transaction::as_str`.
unfoldable pub as_str : Transaction → Text
as_str required = codes "required"
as_str forbidden = codes "forbidden"

pub record Allow : Type 0 where
  pub lint : Text
  pub reason : Text

pub record Manifest : Type 0 where
  pub format_version : ℕ
  pub id : Uuid
  pub depends : List Uuid
  pub transaction : Transaction
  pub reversibility : Reversibility
  pub irreversible_reason : Option Text
  pub allow : List Allow

abbrev pub format_version_known : ℕ
format_version_known = 1

-- The loop over `depends` with the set `seen`.
unfoldable pub check_repeats : Text → List Uuid → List Uuid → Result (Unit {0})
check_repeats path seen [] = ok tt
check_repeats path seen (d ∷ rest) =
    let further = check_repeats path (add d seen) rest in
    if contains seen d then err (at (file path) (new manifest_invalid)) else further

-- `stated_reason`: a reason made of blanks explains nothing.
unfoldable pub stated_reason : Option Text → Option Text
stated_reason none = none
stated_reason (some reason) = if is_empty (trim reason) then none else some reason

unfoldable pub check_reason : Text → Reversibility → Option Text → Result (Unit {0})
check_reason path irreversible none = err (at (file path) (new migration_reversibility_invalid))
check_reason path reversible (some reason) =
    err (at (file path) (new migration_reversibility_invalid))
check_reason path irreversible (some reason) = ok tt
check_reason path reversible none = ok tt

unfoldable pub check_allows : Text → List Allow → Result (Unit {0})
check_allows path [] = ok tt
check_allows path (a ∷ rest) =
    let further = check_allows path rest in
    if is_empty (trim a.reason) then err (at (file path) (new manifest_invalid)) else further

abbrev pub guard : Bool → Error → Result (Unit {0})
guard true e = ok tt
guard false e = err e

module _ (lib : Library) where
  -- `Manifest::validate`.
  unfoldable pub validate : Text → Manifest → Result (Unit {0})
  validate path m = do
    guard (m.format_version == format_version_known)
        (at (file path) (new manifest_unsupported_format_version))
    guard (lib.get_version_num m.id == 7) (at (file path) (new migration_id_invalid))
    guard (not (contains m.depends m.id)) (at (file path) (new graph_self_dependency))
    check_repeats path [] m.depends
    check_reason path m.reversibility (stated_reason m.irreversible_reason)
    check_allows path m.allow

  -- `canonical_depends`.
  unfoldable pub canonical_depends : Manifest → List Text
  canonical_depends m = sort text_leb (map lib.to_string m.depends)

-- `[Text]::join`.
abbrev pub join : Text → List Text → Text
join sep [] = []
join sep (t ∷ []) = t
join sep (t ∷ u ∷ ts) = t ++ (sep ++ join sep (u ∷ ts))

abbrev pub concat : List Text → Text
concat [] = []
concat (t ∷ ts) = t ++ concat ts

abbrev pub newline : Text
newline = 10 ∷ []

module _ (lib : Library) where
  -- The lines that name the migration's identity, mode and edges.
  abbrev pub identity_lines : Manifest → Text
  identity_lines m = concat (
      codes "id="
      ∷ lib.to_string m.id
      ∷ newline
      ∷ codes "transaction="
      ∷ as_str m.transaction
      ∷ newline
      ∷ codes "depends="
      ∷ join (codes ",") (canonical_depends lib m)
      ∷ newline
      ∷ [])

  -- `canonical_form`.
  unfoldable pub canonical_form : Manifest → Text
  canonical_form m = concat (codes "zapadka.migration.v1" ∷ newline ∷ identity_lines m ∷ [])

  -- `definition_sha256`.
  unfoldable pub definition_sha256 : Manifest → Text → Text
  definition_sha256 m deploy_sql = lib.sha256_hex (
      concat (canonical_form m ∷ codes "deploy_sha256=" ∷ lib.sha256_hex deploy_sql ∷ newline ∷ []))

  abbrev pub envelope : Manifest → Text → Text
  envelope m canonical = concat (
      codes "zapadka.migration.v2"
      ∷ newline
      ∷ codes "algorithm=structural-v1"
      ∷ newline
      ∷ identity_lines m
      ∷ codes "deploy_structure_sha256="
      ∷ lib.sha256_hex canonical
      ∷ newline
      ∷ [])

  -- `structural_definition_sha256`.
  unfoldable pub structural_definition_sha256 : Manifest → Text → Result Text
  structural_definition_sha256 m deploy_sql = elim (canonicalize lib.parser deploy_sql) [
    | malformed e ↦ err (new script_parse_error)
    | parsed canonical ↦ ok (lib.sha256_hex (envelope m canonical))
  ]

-- `suppression`.
unfoldable pub suppression : Manifest → Text → Option Allow
suppression m code = find (λ (a : Allow). text_eq a.lint code) m.allow
