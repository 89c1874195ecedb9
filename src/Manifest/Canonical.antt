-- ===== src/Manifest/Canonical.antt =====
-- The canonical form forgets the order in which dependencies were written.
use mathlib.Core.Path.{ap₂}
use mathlib.Core.List.{Permᴰ}
use zapadka.Common.{◌≡◌, refl, ap, ◌∙◌, List, Text, map, Bool, inl, inr}
use zapadka.Common.Sort.{sort, insert_sorted, text_leb-IsTotal, insert_sorted_comm, IsTotal}
use zapadka.Sql.Parser.{Parsing-cases}
use zapadka.Sql.Canonical.{canonicalize}
use zapadka.Manifest.{
  Uuid, Library, Manifest, canonical_depends, canonical_form, definition_sha256,
  structural_definition_sha256,
}

module _ {ℓ} {A : Type ℓ} {below : A → A → Bool} (order : IsTotal below) where
  pub sort-perm : {xs ys : List A} → Permᴰ xs ys → sort below xs ≡ sort below ys
  sort-perm Permᴰ.nil = refl
  sort-perm (Permᴰ.cons {a = a} {b = b} e p) = ap₂ (insert_sorted below) e (sort-perm p)
  sort-perm (Permᴰ.swap {a = a} {b = b} {l = l} e f) =
      insert_sorted_comm order a b (sort below l)
      ∙ ap₂ (λ u v. insert_sorted below u (insert_sorted below v (sort below l))) f e
  sort-perm (Permᴰ.trans p q) = sort-perm p ∙ sort-perm q

-- A reordering stays one under a function.
map-perm {ℓ κ} :
    {A : Type ℓ} {B : Type κ} (f : A → B) {xs ys : List A}
    → Permᴰ xs ys
    → Permᴰ (map f xs) (map f ys)
map-perm f Permᴰ.nil = Permᴰ.nil
map-perm f (Permᴰ.cons e p) = Permᴰ.cons (ap f e) (map-perm f p)
map-perm f (Permᴰ.swap e g) = Permᴰ.swap (ap f e) (ap f g)
map-perm f (Permᴰ.trans p q) = Permᴰ.trans (map-perm f p) (map-perm f q)

-- The manifest with its dependencies written as another list.
abbrev pub with_depends : Manifest → List Uuid → Manifest
with_depends m ds = record m { depends = ds }

module _ (lib : Library) where
  canonical_depends-perm :
      (m : Manifest) (ds : List Uuid)
      → Permᴰ m.depends ds
      → canonical_depends lib m ≡ canonical_depends lib (with_depends m ds)
  unfolding canonical_depends
  canonical_depends-perm m ds p = sort-perm text_leb-IsTotal (map-perm lib.to_string p)

  -- Writing the dependencies of a manifest in another order changes neither its canonical form nor
  -- the hash of its definition, under either algorithm, whatever the deploy script is.
  pub definition_sha256-reorder :
      (m : Manifest) (ds : List Uuid) (sql : Text)
      → Permᴰ m.depends ds
      → (canonical_form lib m ≡ canonical_form lib (with_depends m ds))
        × (definition_sha256 lib m sql ≡ definition_sha256 lib (with_depends m ds) sql)
        × (structural_definition_sha256 lib m sql
            ≡ structural_definition_sha256 lib (with_depends m ds) sql)
  unfolding canonical_form definition_sha256 structural_definition_sha256
  definition_sha256-reorder m ds sql p =
      let e = canonical_depends-perm m ds p in
      (
        cc,
        cc,
        elim (Parsing-cases (canonicalize lib.parser sql)) [
          | inl (e, failed) ↦ cc
          | inr (c, found) ↦ cc
        ],
      )
