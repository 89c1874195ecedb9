-- ===== src/Migration.antt =====
-- crates/zapadka-core/src/migration.rs: a migration package, its name and its identity.
-- A text is its code points, so the byte offsets of the source are counted in characters. That is
-- the same on the ASCII texts that are cut: a normalized slug, and a name whose first 36 characters
-- spell a UUID (one with another character there is refused by `parse_str` either way).
-- File access is a parameter: `read` takes what the directory holds.
pub mod Identities
pub mod Slugs
pub mod Stable
pub mod Reading
mod Examples
use zapadka.Common.{
  ℕ, ◌+◌, Text, codes, is_empty, Bool, true, false, not, ◌&&◌, ◌||◌, List, [], ◌∷◌, ◌++◌, Option,
  none, some, ◌==◌, if◌then◌else◌, take, drop, length, ltb, leb, is_some, trim_end_by, insert,
  contains_key,
}
use zapadka.Errors.{
  Error, Result, ok, err, new, at, file, ◌>>=◌, ◌>>◌, manifest_invalid, migration_duplicate_id,
  migration_missing_script, migration_directory_mismatch, migration_reversibility_invalid,
}
use zapadka.Manifest.{
  Uuid, Library, Manifest, Reversibility, reversible, irreversible, validate, definition_sha256,
  structural_definition_sha256, guard,
}

pub data ScriptRole : Type 0 where
  deploy revert verify : ScriptRole

-- One SQL file. Its absolute path is left out: only `relative_path` is ever reported.
pub record Script : Type 0 where
  pub role : ScriptRole
  pub relative_path : Text
  pub sql : Text
  pub sha256 : Text

pub record Migration : Type 0 where
  pub id : Uuid
  pub slug : Text
  pub relative_dir : Text
  pub manifest : Manifest
  pub deploy : Script
  pub revert : Option Script
  pub verify : Option Script
  pub definition_sha256 : Text

-- `Migration::depends`, `Migration::is_reversible` and `Migration::script`.
abbrev pub depends : Migration → List Uuid
depends m = m.manifest.depends

unfoldable pub script : Migration → ScriptRole → Option Script
script m deploy = some m.deploy
script m revert = m.revert
script m verify = m.verify

abbrev pub manifest_path : Migration → Text
manifest_path m = m.relative_dir ++ codes "/migration.toml"

module _ (lib : Library) where
  -- `Migration::structural_definition_sha256`: a failure names the script.
  unfoldable pub structural_definition : Migration → Result Text
  structural_definition m = elim (structural_definition_sha256 lib m.manifest m.deploy.sql) [
    | ok hash ↦ ok hash
    | err e ↦ err (at (file m.deploy.relative_path) e)
  ]

  -- `short_id`: the first eight characters of an identity.
  abbrev pub short_id : Uuid → Text
  short_id id = take 8 (lib.to_string id)

  -- `Migration::label`.
  abbrev pub label : Migration → Text
  label m = short_id m.id ++ (codes " " ++ m.slug)

abbrev pub is_lower : ℕ → Bool
is_lower c = leb b'a' c && leb c b'z'

abbrev pub is_upper : ℕ → Bool
is_upper c = leb b'A' c && leb c b'Z'

abbrev pub is_digit : ℕ → Bool
is_digit c = leb b'0' c && leb c b'9'

-- `char::is_ascii_alphanumeric` and `char::to_ascii_lowercase`.
abbrev pub is_alphanumeric : ℕ → Bool
is_alphanumeric c = is_lower c || is_upper c || is_digit c

abbrev pub to_lower : ℕ → ℕ
to_lower c = if is_upper c then c + 32 else c

-- The loop of `normalize_slug`, over `slug` and `pending_separator`.
unfoldable pub slug_loop : Text → Text → Bool → Text
slug_loop [] slug pending = slug
slug_loop (c ∷ s) slug pending =
    slug_loop s
      (if is_alphanumeric c
        then (if pending && not (is_empty slug) then slug ++ b'-' ∷ [] else slug) ++ to_lower c ∷ []
        else slug)
      (not (is_alphanumeric c))

abbrev pub max_slug : ℕ
max_slug = 80

-- `normalize_slug`.
unfoldable pub normalize_slug : Text → Result Text
normalize_slug input =
    let slug = slug_loop input [] false in
    if is_empty slug
    then err (new manifest_invalid)
    else ok (trim_end_by (λ c. c == b'-') (take max_slug slug))

abbrev pub uuid_len : ℕ
uuid_len = 36

-- `rest.strip_prefix('-').unwrap_or(rest)`.
abbrev pub strip_dash : Text → Text
strip_dash [] = []
strip_dash (c ∷ s) = if c == b'-' then s else c ∷ s

-- The first case of `split_directory_name`: an identity at the front of a longer name.
abbrev pub split_front : Library → Text → Option Uuid
split_front lib name =
    if ltb uuid_len (length name) then lib.parse_str (take uuid_len name) else none

-- `split_directory_name`.
unfoldable pub split_directory_name : Library → Text → Option Uuid × Text
split_directory_name lib name = elim (split_front lib name) [
  | some id ↦ (some id, strip_dash (drop uuid_len name))
  | none ↦ (lib.parse_str name, [])
]

-- `check_for_duplicate_ids`: the loop over the map `by_id`.
unfoldable pub check_ids : List (Uuid × Migration) → List Migration → Result (Unit {0})
check_ids by_id [] = ok tt
check_ids by_id (m ∷ rest) =
    let further = check_ids (insert m.id m by_id) rest in
    if contains_key by_id m.id
    then err (at (file (manifest_path m)) (new migration_duplicate_id))
    else further

abbrev pub check_for_duplicate_ids : List Migration → Result (Unit {0})
check_for_duplicate_ids = check_ids []

-- What a directory holds: the manifest that was read and parsed, or the error of reading it, and
-- the scripts. `none` is a file that is not there.
pub record Package : Type 0 where
  pub relative_dir : Text
  pub directory_name : Text
  pub manifest : Option (Result Manifest)
  pub deploy : Result (Option Script)
  pub revert : Result (Option Script)
  pub verify : Result (Option Script)

abbrev pub require {ℓ} : {A : Type ℓ} → Option A → Error → Result A
require none e = err e
require (some a) e = ok a

-- The `match` on the identity that the directory's name holds.
abbrev pub check_name : Option Uuid → Uuid → Error → Result (Unit {0})
check_name none id e = err e
check_name (some name_id) id e = guard (name_id == id) e

-- The `match` on the declared reversibility and the presence of `revert.sql`.
abbrev pub check_revert : Reversibility → Bool → Error → Result (Unit {0})
check_revert reversible false e = err e
check_revert irreversible true e = err e
check_revert reversible true e = ok tt
check_revert irreversible false e = ok tt

-- `read`, with `Manifest::parse` as the parse that the package holds and `Manifest::validate`.
unfoldable pub read : Library → Package → Result Migration
read lib p = do
  let relative_manifest = p.relative_dir ++ codes "/migration.toml"
  parsed ← require p.manifest (at (file p.relative_dir) (new migration_missing_script))
  manifest ← parsed
  validate lib relative_manifest manifest
  let (name_id, slug) = split_directory_name lib p.directory_name
  check_name name_id manifest.id (at (file relative_manifest) (new migration_directory_mismatch))
  found ← p.deploy
  deploy_script ← require found (at (file p.relative_dir) (new migration_missing_script))
  revert_script ← p.revert
  verify_script ← p.verify
  check_revert manifest.reversibility (is_some revert_script)
      (at (file relative_manifest) (new migration_reversibility_invalid))
  ok (record {
    id = manifest.id;
    slug = slug;
    relative_dir = p.relative_dir;
    manifest = manifest;
    deploy = deploy_script;
    revert = revert_script;
    verify = verify_script;
    definition_sha256 = definition_sha256 lib manifest deploy_script.sql;
  })
