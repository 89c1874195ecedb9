-- ===== src/Common/Sort.antt =====
-- `[T]::sort`, for texts and for identities: a list in ascending order of its members.
-- The standard library's sort is stable; on a total order that tells members apart only the sorted
-- list itself can be seen, so an insertion sort stands for it.
use mathlib.Core.Path.{◌≡◌, refl}
use mathlib.Core.Bool.{Bool, true, false, ◌||◌, ◌&&◌}
use mathlib.Core.List.{List, [], ◌∷◌}
use native.Mathlib.Omega.{arith}
use zapadka.Common.Tests.{ltb, leb, ◌==◌, if◌then◌else◌}
use zapadka.Common.Texts.{Text}

module _ {ℓ} {A : Type ℓ} (below : A → A → Bool) where
  abbrev pub insert_sorted : A → List A → List A
  insert_sorted a [] = a ∷ []
  insert_sorted a (x ∷ xs) =
      let rest = insert_sorted a xs in if below a x then a ∷ x ∷ xs else x ∷ rest

  abbrev pub sort : List A → List A
  sort [] = []
  sort (x ∷ xs) = insert_sorted x (sort xs)

-- The order of texts, by their first difference.
abbrev pub text_leb : Text → Text → Bool
text_leb [] t = true
text_leb (c ∷ s) [] = false
text_leb (c ∷ s) (d ∷ t) = ltb c d || c == d && text_leb s t

-- A total order that tells members apart.
pub record IsTotal {ℓ} {A : Type ℓ} (below : A → A → Bool) : Type ℓ where
  pub total : (a b : A) → below a b ≡ false → below b a ≡ true
  pub antisym : (a b : A) → below a b ≡ true → below b a ≡ true → a ≡ b
  pub trans : (a b c : A) → below a b ≡ true → below b c ≡ true → below a c ≡ true

pub leb-IsTotal : IsTotal leb
leb-IsTotal = record {
  total = λ a b h. ground arith;
  antisym = λ a b h k. ground arith;
  trans = λ a b c h k. ground arith;
}

text_leb_total : (s t : Text) → text_leb s t ≡ false → text_leb t s ≡ true
text_leb_total [] t h = cc
text_leb_total (c ∷ s) [] h = refl
text_leb_total (c ∷ s) (d ∷ t) h = ground (arith, text_leb_total s t)

text_leb_antisym : (s t : Text) → text_leb s t ≡ true → text_leb t s ≡ true → s ≡ t
text_leb_antisym [] [] h k = refl
text_leb_antisym [] (d ∷ t) h k = cc
text_leb_antisym (c ∷ s) [] h k = cc
text_leb_antisym (c ∷ s) (d ∷ t) h k = ground (arith, text_leb_antisym s t)

text_leb_trans : (s t u : Text) → text_leb s t ≡ true → text_leb t u ≡ true → text_leb s u ≡ true
text_leb_trans [] t u h k = refl
text_leb_trans (c ∷ s) [] u h k = cc
text_leb_trans (c ∷ s) (d ∷ t) [] h k = cc
text_leb_trans (c ∷ s) (d ∷ t) (e ∷ u) h k = ground (arith, text_leb_trans s t u)

pub text_leb-IsTotal : IsTotal text_leb
text_leb-IsTotal = record {
  total = text_leb_total;
  antisym = text_leb_antisym;
  trans = text_leb_trans;
}

module _ {ℓ} {A : Type ℓ} {below : A → A → Bool} (order : IsTotal below) where
  open order use {total, antisym, trans}

  pub insert_sorted_comm :
      (a b : A) (xs : List A)
      → insert_sorted below a (insert_sorted below b xs)
        ≡ insert_sorted below b (insert_sorted below a xs)
  insert_sorted_comm a b [] = ground (arith, total a b, total b a, antisym a b)
  insert_sorted_comm a b (x ∷ xs) = ground (
    arith,
    total a b,
    total b a,
    antisym a b,
    insert_sorted_comm a b xs,
    trans a b x,
    trans b a x,
    total a x,
    total b x,
    trans x a b,
    trans x b a,
  )
