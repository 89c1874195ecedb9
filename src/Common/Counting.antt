-- ===== src/Common/Counting.antt =====
-- Lists without repetition: how many members they have, and how many pass a test.
use Prim.Native.Nat.{ℕ, ◌+◌, ◌≤◌, ◌<◌}
use mathlib.Core.Path.{◌≡◌, refl}
use mathlib.Core.Logic.{◌≢◌, inl, inr}
use mathlib.Core.Bool.{true, false, not}
use mathlib.Core.List.{List, [], ◌∷◌, ◌++◌}
use native.Mathlib.Omega.{arith}
use zapadka.Common.Tests.{if◌then◌else◌, Bool-cases}
use zapadka.Common.Lists.{length, contains, contains-append, IsNodup, count}
use zapadka.Common.Sets.{delete, contains-delete}

abbrev pub Within : List ℕ → List ℕ → Type 0
Within xs ys = (b : ℕ) → contains xs b ≡ true → contains ys b ≡ true

length-delete-le : (a : ℕ) (xs : List ℕ) → length (delete a xs) ≤ length xs
length-delete-le a [] = omega arith
length-delete-le a (x ∷ xs) = ground (arith, length-delete-le a xs)

length-delete-lt : (a : ℕ) (xs : List ℕ) → contains xs a ≡ true → length (delete a xs) < length xs
length-delete-lt a [] h = cc
length-delete-lt a (x ∷ xs) h = ground (arith, length-delete-le a xs, length-delete-lt a xs)

Within-delete :
    (x : ℕ) (xs ys : List ℕ) → contains xs x ≡ false → Within (x ∷ xs) ys → Within xs (delete x ys)
Within-delete x xs ys fresh h b m = ground (arith, contains-delete x ys b, h b)

-- A list without repetition is no longer than one that holds its members.
pub length-le_of_Within : (xs ys : List ℕ) → IsNodup xs → Within xs ys → length xs ≤ length ys
length-le_of_Within [] ys d h = omega arith
length-le_of_Within (x ∷ xs) ys d h = omega (
  arith,
  length-le_of_Within xs (delete x ys) d.1 (Within-delete x xs ys d.0 h),
  length-delete-lt x ys (h x (ground arith)),
)

-- If it is as long, it holds all members of the other.
pub Within-of_length :
    (xs ys : List ℕ) → IsNodup xs → Within xs ys → length ys ≤ length xs → Within ys xs
Within-of_length [] [] d h full b m = m
Within-of_length [] (y ∷ ys) d h full b m = absurd (omega arith)
Within-of_length (x ∷ xs) ys d h full b m = ground (
  arith,
  contains-delete x ys b,
  length-delete-lt x ys (h x (ground arith)),
  Within-of_length xs (delete x ys) d.1 (Within-delete x xs ys d.0 h),
  Within-of_length xs (delete x ys) d.1 (Within-delete x xs ys d.0 h)
      (omega (arith, length-delete-lt x ys (h x (ground arith)))) b,
)

-- The members of `xs` that are not in `placed`.
abbrev pub missing : List ℕ → List ℕ → ℕ
missing placed xs = count (λ d. not (contains placed d)) xs

missing-fresh :
    (placed : List ℕ) (a : ℕ) (xs : List ℕ)
    → contains xs a ≡ false
    → missing placed xs ≡ missing (placed ++ a ∷ []) xs
missing-fresh placed a [] h = refl
missing-fresh placed a (x ∷ xs) h =
    ground (arith, contains-append placed (a ∷ []) x, missing-fresh placed a xs)

-- Placing one more member takes one from the count of those that are missing.
pub missing-concat :
    (placed : List ℕ) (a : ℕ) (xs : List ℕ)
    → IsNodup xs
    → contains placed a ≡ false
    → missing placed xs ≡ (if contains xs a then 1 else 0) + missing (placed ++ a ∷ []) xs
missing-concat placed a [] d h = omega arith
missing-concat placed a (x ∷ xs) d h = ground (
  arith,
  contains-append placed (a ∷ []) x,
  missing-concat placed a xs,
  missing-fresh placed a xs,
)

pub missing-zero : (placed xs : List ℕ) → missing placed xs ≡ 0 → Within xs placed
missing-zero placed [] h b m = cc
missing-zero placed (x ∷ xs) h b m = ground (arith, missing-zero placed xs (ground arith) b)

pub missing_of_Within : (placed xs : List ℕ) → Within xs placed → missing placed xs ≡ 0
missing_of_Within placed [] h = refl
missing_of_Within placed (x ∷ xs) h =
    ground (arith, h x, missing_of_Within placed xs (λ b m. h b (ground arith)))

-- If some are missing, one can be named.
pub missing-witness :
    (placed xs : List ℕ)
    → missing placed xs ≢ 0
    → (a : ℕ) × (contains xs a ≡ true) × (contains placed a ≡ false)
missing-witness placed [] h = absurd (h refl)
missing-witness placed (x ∷ xs) h = elim (Bool-cases (contains placed x)) [
  | inl old ↦
      let (a, m, n) = missing-witness placed xs (λ e. h (ground arith)) in (a, ground arith, n)
  | inr new ↦ (x, ground arith, new)
]
