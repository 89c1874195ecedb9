-- ===== src/Graph/Release.antt =====
-- The loop that tells the dependents of a placed migration.
use zapadka.Common.{
  ℕ, ◌≡◌, refl, Bool, false, ◌&&◌, ◌||◌, List, [], ◌∷◌, Option, none, some, ◌==◌, arith,
  if◌then◌else◌, contains, IsNodup, get, get-insert, contains-add, IsSorted, IsSorted-add,
  Option-cases, inl, inr,
}
use zapadka.Manifest.{Uuid}
use zapadka.Graph.{Work, decrement, release, release_all}

-- What one notification does to a count, and whether it makes the migration ready.
abbrev pub lowered : Option ℕ → Option ℕ
lowered none = none
lowered (some n) = some (decrement n)

abbrev pub reaches_zero : Option ℕ → Bool
reaches_zero none = false
reaches_zero (some n) = decrement n == 0

module _ (w : Work) (d k : Uuid) where
  get-release :
      get (release w d).remaining k
      ≡ (if d == k then lowered (get w.remaining k) else get w.remaining k)
  unfolding release
  get-release = elim (Option-cases (get w.remaining d)) [
    | inl e ↦ ground arith
    | inr (n, e) ↦ ground (arith, get-insert d (decrement n) w.remaining k)
  ]

  contains-release :
      contains (release w d).ready k
      ≡ (contains w.ready k || d == k && reaches_zero (get w.remaining k))
  unfolding release
  contains-release = elim (Option-cases (get w.remaining d)) [
    | inl e ↦ ground arith
    | inr (n, e) ↦ ground (arith, contains-add d w.ready k)
  ]

-- Each count of a listed migration is lowered once.
pub get-release_all :
    (ds : List Uuid) (w : Work) (k : Uuid)
    → IsNodup ds
    → get (release_all w ds).remaining k
      ≡ (if contains ds k then lowered (get w.remaining k) else get w.remaining k)
unfolding release_all
get-release_all [] w k h = refl
get-release_all (d ∷ ds) w k h =
    ground (arith, get-release w d k, get-release_all ds (release w d) k)

-- A listed migration becomes ready when its count reaches zero.
pub contains-release_all :
    (ds : List Uuid) (w : Work) (k : Uuid)
    → IsNodup ds
    → contains (release_all w ds).ready k
      ≡ (contains w.ready k || contains ds k && reaches_zero (get w.remaining k))
unfolding release_all
contains-release_all [] w k h = ground arith
contains-release_all (d ∷ ds) w k h =
    ground
      (arith, get-release w d k, contains-release w d k, contains-release_all ds (release w d) k)

IsSorted-release : (w : Work) (d : Uuid) → IsSorted w.ready → IsSorted (release w d).ready
unfolding release
IsSorted-release w d h = ground (arith, IsSorted-add d w.ready)

pub IsSorted-release_all :
    (ds : List Uuid) (w : Work) → IsSorted w.ready → IsSorted (release_all w ds).ready
unfolding release_all
IsSorted-release_all [] w h = h
IsSorted-release_all (d ∷ ds) w h = IsSorted-release_all ds (release w d) (IsSorted-release w d h)
