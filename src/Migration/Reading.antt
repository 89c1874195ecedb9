-- ===== src/Migration/Reading.antt =====
-- What a package that was read agrees on.
use mathlib.Core.Path.{subst}
use zapadka.Common.{
  ◌≡◌, refl, ap, ◌∙◌, Bool, true, false, ◌++◌, Option, none, some, codes, is_some, arith,
}
use zapadka.Errors.{
  Error, ok, new, at, file, >>=-eq-ok, migration_missing_script, migration_directory_mismatch,
  migration_reversibility_invalid,
}
use zapadka.Manifest.{
  Uuid, Library, Reversibility, reversible, irreversible, is_reversible, validate,
  definition_sha256,
}
use zapadka.Manifest.Validation.{IsValid, validate_iff}
use zapadka.Migration.{
  Migration, Package, read, require, check_name, check_revert, split_directory_name,
}

-- The migration is the one that the manifest and the directory's name describe: its manifest is
-- valid, the name starts with its identity, it has a revert script exactly when it is reversible,
-- and its definition is the hash of its manifest and its deploy script.
pub record IsConsistent (lib : Library) (p : Package) (m : Migration) : Type 0 where
  pub parsed : p.manifest ≡ some (ok m.manifest)
  pub valid : IsValid lib m.manifest
  pub same_id : m.id ≡ m.manifest.id
  pub named : split_directory_name lib p.directory_name ≡ (some m.id, m.slug)
  pub deployable : p.deploy ≡ ok (some m.deploy)
  pub revertible : is_some m.revert ≡ is_reversible m.manifest.reversibility
  pub definition : m.definition_sha256 ≡ definition_sha256 lib m.manifest m.deploy.sql

ok_injective : {A : Type 0} (a b : A) → ok a ≡ ok b → a ≡ b
ok_injective a b h = cc

require-eq-ok : {A : Type 0} (o : Option A) (e : Error) (a : A) → require o e ≡ ok a → o ≡ some a
require-eq-ok none e a h = cc
require-eq-ok (some b) e a h = ground arith

check_name-eq-ok :
    (o : Option Uuid) (id : Uuid) (e : Error) → check_name o id e ≡ ok tt → o ≡ some id
check_name-eq-ok none id e h = cc
check_name-eq-ok (some b) id e h = ground arith

check_revert-eq-ok :
    (v : Reversibility) (b : Bool) (e : Error) → check_revert v b e ≡ ok tt → b ≡ is_reversible v
check_revert-eq-ok reversible true e h = refl
check_revert-eq-ok reversible false e h = cc
check_revert-eq-ok irreversible true e h = cc
check_revert-eq-ok irreversible false e h = refl

-- A package that is read gives a migration that is consistent with it.
pub read-IsConsistent :
    (lib : Library) (p : Package) (m : Migration) → read lib p ≡ ok m → IsConsistent lib p m
unfolding read
read-IsConsistent lib p m h =
    let path = p.relative_dir ++ codes "/migration.toml" in
    let (name_id, slug) = split_directory_name lib p.directory_name in
    let (parsed, has_manifest, h1) =
      >>=-eq-ok (require p.manifest (at (file p.relative_dir) (new migration_missing_script))) _
        h in
    let (manifest, is_parsed, h2) = >>=-eq-ok parsed _ h1 in
    let (_, is_valid, h3) = >>=-eq-ok (validate lib path manifest) _ h2 in
    let (_, named, h4) =
      >>=-eq-ok (check_name name_id manifest.id (at (file path) (new migration_directory_mismatch)))
        _ h3 in
    let (found, has_deploy, h5) = >>=-eq-ok p.deploy _ h4 in
    let (deploy_script, is_deploy, h6) =
      >>=-eq-ok (require found (at (file p.relative_dir) (new migration_missing_script))) _ h5 in
    let (revert_script, has_revert, h7) = >>=-eq-ok p.revert _ h6 in
    let (verify_script, has_verify, h8) = >>=-eq-ok p.verify _ h7 in
    let (_, agrees, h9) =
      >>=-eq-ok
        (check_revert manifest.reversibility (is_some revert_script)
          (at (file path) (new migration_reversibility_invalid)))
        _ h8 in
    let here : Migration = record {
      id = manifest.id;
      slug = slug;
      relative_dir = p.relative_dir;
      manifest = manifest;
      deploy = deploy_script;
      revert = revert_script;
      verify = verify_script;
      definition_sha256 = definition_sha256 lib manifest deploy_script.sql;
    } in
    let same : here ≡ m = ok_injective here m h9 in
    subst (IsConsistent lib p) same (record {
      parsed = require-eq-ok p.manifest _ parsed has_manifest ∙ ap some is_parsed;
      valid = (validate_iff lib path manifest).0 is_valid;
      same_id = refl;
      named = ap (λ n. (n, slug)) (check_name-eq-ok name_id manifest.id _ named);
      deployable = has_deploy ∙ ap ok (require-eq-ok found _ deploy_script is_deploy);
      revertible = check_revert-eq-ok manifest.reversibility (is_some revert_script) _ agrees;
      definition = refl;
    })
