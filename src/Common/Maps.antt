-- ===== src/Common/Maps.antt =====
-- `BTreeMap` keyed by identities: an association list in strictly increasing order of keys.
use Prim.Native.Nat.{ℕ}
use mathlib.Core.Path.{◌≡◌, refl}
use mathlib.Core.Bool.{Bool}
use mathlib.Core.List.{List, [], ◌∷◌}
use mathlib.Core.Option.{Option, none, some}
use native.Mathlib.Omega.{arith}
use zapadka.Common.Tests.{ltb, ◌==◌, if◌then◌else◌, is_some}
use zapadka.Common.Lists.{contains}
use zapadka.Common.Sets.{add}

module _ {ℓ} {V : Type ℓ} where
  -- `BTreeMap::insert`; a key that is present gets the new value.
  abbrev pub insert : ℕ → V → List (ℕ × V) → List (ℕ × V)
  insert k v [] = (k, v) ∷ []
  insert k v ((j, w) ∷ m) =
      let rest = insert k v m in
      if ltb k j then (k, v) ∷ (j, w) ∷ m else if k == j then (k, v) ∷ m else (j, w) ∷ rest

  abbrev pub get : List (ℕ × V) → ℕ → Option V
  get [] k = none
  get ((j, w) ∷ m) k = if j == k then some w else get m k

  abbrev pub contains_key : List (ℕ × V) → ℕ → Bool
  contains_key m k = is_some (get m k)

  -- `BTreeMap::remove`.
  abbrev pub remove : ℕ → List (ℕ × V) → List (ℕ × V)
  remove k [] = []
  remove k ((j, w) ∷ m) = let rest = remove k m in if j == k then rest else (j, w) ∷ rest

  abbrev pub keys : List (ℕ × V) → List ℕ
  keys [] = []
  keys ((j, w) ∷ m) = j ∷ keys m

  abbrev pub values : List (ℕ × V) → List V
  values [] = []
  values ((j, w) ∷ m) = w ∷ values m

  pub get-insert :
      (k : ℕ) (v : V) (m : List (ℕ × V)) (i : ℕ)
      → get (insert k v m) i ≡ (if k == i then some v else get m i)
  get-insert k v [] i = refl
  get-insert k v ((j, w) ∷ m) i = ground (arith, get-insert k v m i)

  pub get-remove :
      (k : ℕ) (m : List (ℕ × V)) (i : ℕ) → get (remove k m) i ≡ (if k == i then none else get m i)
  get-remove k [] i = ground arith
  get-remove k ((j, w) ∷ m) i = ground (arith, get-remove k m i)

  pub contains-keys : (m : List (ℕ × V)) (i : ℕ) → contains (keys m) i ≡ contains_key m i
  contains-keys [] i = refl
  contains-keys ((j, w) ∷ m) i = ground (arith, contains-keys m i)

  pub keys-insert : (k : ℕ) (v : V) (m : List (ℕ × V)) → keys (insert k v m) ≡ add k (keys m)
  keys-insert k v [] = refl
  keys-insert k v ((j, w) ∷ m) = ground (arith, keys-insert k v m)
