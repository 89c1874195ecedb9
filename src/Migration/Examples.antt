-- ===== src/Migration/Examples.antt =====
-- A slug, a list of migrations and a package, and the theorems at them.
use zapadka.Common.{◌≤◌, ◌≡◌, refl, true, [], ◌∷◌, codes, false, some, none, ◌↔◌, IsNodup, length}
use zapadka.Errors.{ok}
use zapadka.Manifest.{
  Library, definition_sha256, validate, check_repeats, check_allows, check_reason, stated_reason,
}
use zapadka.Manifest.Examples.{library, manifest}
use zapadka.Migration.{
  Migration, Package, deploy, read, slug_loop, normalize_slug, check_for_duplicate_ids,
  split_directory_name,
}
use zapadka.Migration.Identities.{identities, check_for_duplicate_ids_iff}
use zapadka.Migration.Slugs.{spelled, normalize_slug-spelled}
use zapadka.Migration.Stable.{normalize_slug_idempotent}
use zapadka.Migration.Reading.{IsConsistent, read-IsConsistent}

normalized : normalize_slug (codes "  Add Orders -- Table! ") ≡ ok (codes "add-orders-table")
unfolding normalize_slug slug_loop
normalized = refl

normalize_slug-spelled_example :
    (spelled true false (codes "add-orders-table") ≡ true)
    × (length (codes "add-orders-table") ≤ 80)
normalize_slug-spelled_example =
    normalize_slug-spelled (codes "  Add Orders -- Table! ") (codes "add-orders-table") normalized

normalize_slug_idempotent_example :
    normalize_slug (codes "add-orders-table") ≡ ok (codes "add-orders-table")
normalize_slug_idempotent_example =
    normalize_slug_idempotent (codes "  Add Orders -- Table! ") (codes "add-orders-table")
      normalized

-- A library that reads the directory's whole name as the identity 9.
abbrev naming : Library
naming = record library { parse_str = λ t. some 9 }

abbrev bundle : Package
bundle = record {
  relative_dir = codes "migrations/9";
  directory_name = codes "9";
  manifest = some (ok manifest);
  deploy = ok (
      some (record {
        role = deploy;
        relative_path = codes "migrations/9/deploy.sql";
        sql = codes "SELECT 1";
        sha256 = [];
      }));
  revert = ok none;
  verify = ok none;
}

abbrev packed : Migration
packed = record {
  id = 9;
  slug = [];
  relative_dir = codes "migrations/9";
  manifest = manifest;
  deploy = record {
    role = deploy;
    relative_path = codes "migrations/9/deploy.sql";
    sql = codes "SELECT 1";
    sha256 = [];
  };
  revert = none;
  verify = none;
  definition_sha256 = definition_sha256 naming manifest (codes "SELECT 1");
}

read-bundle : read naming bundle ≡ ok packed
unfolding read split_directory_name validate check_repeats stated_reason check_reason check_allows
read-bundle = refl

read-IsConsistent_example : IsConsistent naming bundle packed
read-IsConsistent_example = read-IsConsistent naming bundle packed read-bundle

check_for_duplicate_ids_iff_example :
    (check_for_duplicate_ids (packed ∷ packed ∷ []) ≡ ok tt)
    ↔ IsNodup (identities (packed ∷ packed ∷ []))
check_for_duplicate_ids_iff_example = check_for_duplicate_ids_iff (packed ∷ packed ∷ [])
