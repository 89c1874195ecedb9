-- ===== src/Common/Sets.antt =====
-- `BTreeSet` of identities: a list in strictly increasing order.
use Prim.Native.Nat.{ℕ, ◌≤◌, ◌<◌}
use mathlib.Core.Path.{◌≡◌, refl}
use mathlib.Core.Bool.{true, false, ◌||◌, ◌&&◌, not}
use mathlib.Core.List.{List, [], ◌∷◌}
use native.Mathlib.Omega.{arith}
use zapadka.Common.Tests.{ltb, ◌==◌, if◌then◌else◌}
use zapadka.Common.Lists.{contains, IsNodup}

-- `BTreeSet::insert`.
abbrev pub add : ℕ → List ℕ → List ℕ
add a [] = a ∷ []
add a (x ∷ xs) =
    let rest = add a xs in if ltb a x then a ∷ x ∷ xs else if a == x then x ∷ xs else x ∷ rest

-- `BTreeSet::remove`.
abbrev pub delete : ℕ → List ℕ → List ℕ
delete a [] = []
delete a (x ∷ xs) = let rest = delete a xs in if x == a then rest else x ∷ rest

-- `collect` into a set.
abbrev pub set_of : List ℕ → List ℕ
set_of [] = []
set_of (x ∷ xs) = add x (set_of xs)

pub contains-add : (a : ℕ) (xs : List ℕ) (b : ℕ) → contains (add a xs) b ≡ (a == b || contains xs b)
contains-add a [] b = refl
contains-add a (x ∷ xs) b = ground (arith, contains-add a xs b)

pub contains-delete :
    (a : ℕ) (xs : List ℕ) (b : ℕ) → contains (delete a xs) b ≡ (not (a == b) && contains xs b)
contains-delete a [] b = ground arith
contains-delete a (x ∷ xs) b = ground (arith, contains-delete a xs b)

pub contains-set_of : (xs : List ℕ) (b : ℕ) → contains (set_of xs) b ≡ contains xs b
contains-set_of [] b = refl
contains-set_of (x ∷ xs) b = ground (arith, contains-add x (set_of xs) b, contains-set_of xs b)

-- Strictly increasing, and above `lo`.
abbrev pub IsAbove : ℕ → List ℕ → Type 0
IsAbove lo [] = Unit
IsAbove lo (x ∷ xs) = (lo < x) × IsAbove x xs

abbrev pub IsSorted : List ℕ → Type 0
IsSorted [] = Unit
IsSorted (x ∷ xs) = IsAbove x xs

pub IsAbove-add : (a lo : ℕ) (xs : List ℕ) → lo < a → IsAbove lo xs → IsAbove lo (add a xs)
IsAbove-add a lo [] h s = (h, tt)
IsAbove-add a lo (x ∷ xs) h s = ground (arith, IsAbove-add a x xs)

pub IsSorted-add : (a : ℕ) (xs : List ℕ) → IsSorted xs → IsSorted (add a xs)
IsSorted-add a [] s = tt
IsSorted-add a (x ∷ xs) s = ground (arith, IsAbove-add a x xs)

pub IsSorted-set_of : (xs : List ℕ) → IsSorted (set_of xs)
IsSorted-set_of [] = tt
IsSorted-set_of (x ∷ xs) = IsSorted-add x (set_of xs) (IsSorted-set_of xs)

IsAbove-weaken : (lo hi : ℕ) (xs : List ℕ) → lo < hi → IsAbove hi xs → IsAbove lo xs
IsAbove-weaken lo hi [] h s = tt
IsAbove-weaken lo hi (x ∷ xs) h s = (omega arith, s.1)

IsAbove-IsSorted : (lo : ℕ) (xs : List ℕ) → IsAbove lo xs → IsSorted xs
IsAbove-IsSorted lo [] s = tt
IsAbove-IsSorted lo (x ∷ xs) s = s.1

pub IsAbove-delete : (a lo : ℕ) (xs : List ℕ) → IsAbove lo xs → IsAbove lo (delete a xs)
IsAbove-delete a lo [] s = tt
IsAbove-delete a lo (x ∷ xs) s =
    ground (arith, IsAbove-delete a x xs, IsAbove-weaken lo x (delete a xs))

-- Nothing at or below the bound is a member.
pub IsAbove-contains : (lo a : ℕ) (xs : List ℕ) → IsAbove lo xs → a ≤ lo → contains xs a ≡ false
IsAbove-contains lo a [] s h = refl
IsAbove-contains lo a (x ∷ xs) s h = ground (arith, IsAbove-contains x a xs)

pub IsAbove-IsNodup : (lo : ℕ) (xs : List ℕ) → IsAbove lo xs → IsNodup xs
IsAbove-IsNodup lo [] s = tt
IsAbove-IsNodup lo (x ∷ xs) s =
    (IsAbove-contains x x xs s.1 (omega arith), IsAbove-IsNodup x xs s.1)

pub IsSorted-IsNodup : (xs : List ℕ) → IsSorted xs → IsNodup xs
IsSorted-IsNodup [] s = tt
IsSorted-IsNodup (x ∷ xs) s = (IsAbove-contains x x xs s (omega arith), IsAbove-IsNodup x xs s)

pub IsSorted-delete : (a : ℕ) (xs : List ℕ) → IsSorted xs → IsSorted (delete a xs)
IsSorted-delete a [] s = tt
IsSorted-delete a (x ∷ xs) s =
    ground (arith, IsAbove-delete a x xs, IsAbove-IsSorted x (delete a xs))

-- The first of a sorted set is the smallest.
pub head-le : (a : ℕ) (xs : List ℕ) (b : ℕ) → IsSorted (a ∷ xs) → contains (a ∷ xs) b ≡ true → a ≤ b
head-le a xs b s m = ground (arith, IsAbove-contains a b xs)
