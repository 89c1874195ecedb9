-- ===== src/Manifest/Examples.antt =====
-- A manifest with two dependencies, and the theorems at it.
use mathlib.Core.List.Permᴰ
use zapadka.Common.{◌≡◌, refl, [], ◌∷◌, codes, some, none, ◌↔◌}
use zapadka.Sql.Examples.{parser}
use zapadka.Errors.{ok}
use zapadka.Manifest.{
  Library, Manifest, required, irreversible, validate, canonical_form, definition_sha256,
  structural_definition_sha256,
}
use zapadka.Manifest.Validation.{IsValid, validate_iff}
use zapadka.Manifest.Canonical.{with_depends, definition_sha256-reorder}

-- A library whose identities print as one digit and whose hash is the text itself.
abbrev pub library : Library
library = record {
  to_string = λ id. id ∷ [];
  parse_str = λ t. none;
  get_version_num = λ id. 7;
  sha256_hex = λ t. t;
  parser = parser;
}

abbrev pub manifest : Manifest
manifest = record {
  format_version = 1;
  id = 9;
  depends = 3 ∷ 2 ∷ [];
  transaction = required;
  reversibility = irreversible;
  irreversible_reason = some (codes "drops data");
  allow = [];
}

validate_iff_example : (validate library (codes "m") manifest ≡ ok tt) ↔ IsValid library manifest
validate_iff_example = validate_iff library (codes "m") manifest

definition_sha256-reorder_example :
    (canonical_form library manifest ≡ canonical_form library (with_depends manifest (2 ∷ 3 ∷ [])))
    × (definition_sha256 library manifest (codes "SELECT 1")
        ≡ definition_sha256 library (with_depends manifest (2 ∷ 3 ∷ [])) (codes "SELECT 1"))
    × (structural_definition_sha256 library manifest (codes "SELECT 1")
        ≡ structural_definition_sha256 library
            (with_depends manifest (2 ∷ 3 ∷ []))
            (codes "SELECT 1"))
definition_sha256-reorder_example =
    definition_sha256-reorder library manifest (2 ∷ 3 ∷ []) (codes "SELECT 1")
      (Permᴰ.swap refl refl)
