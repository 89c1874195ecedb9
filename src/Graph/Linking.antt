-- ===== src/Graph/Linking.antt =====
-- What `build` makes of a list of migrations: a map in order of identity, and its edges reversed.
use mathlib.Core.Path.{subst}
use zapadka.Common.{
  ◌≡◌, refl, Bool, true, false, ◌&&◌, ◌||◌, List, [], ◌∷◌, none, some, ◌==◌, arith, any, All,
  if◌then◌else◌, contains, IsNodup, get, insert, get-insert, contains_key, contains-keys, keys,
  keys-insert, values, add, contains-add, IsSorted, IsSorted-add, IsSorted-IsNodup, Option-cases,
  inl, inr, ◌∙◌,
}
use zapadka.Errors.{Error, Result-cases, ok, err, >>=-eq-ok, migration_unknown_dependency}
use zapadka.Manifest.{Uuid}
use zapadka.Migration.{Migration, depends}
use zapadka.Graph.{graph, collect, no_dependents, link_one, link_all, dependent_ids}
use zapadka.Graph.Facts.{deps_in, IsWellFormed}

abbrev ids_of : List (Uuid × List Uuid) → Uuid → List Uuid
ids_of l d = elim (get l d) [ none ↦ [] | some s ↦ s ]

abbrev AllSorted : List (Uuid × List Uuid) → Type 0
AllSorted l = (d : Uuid) → IsSorted (ids_of l d)

module _ (m : Migration) where
  -- What the loop over one migration's dependencies adds.
  record Linked (ds : List Uuid) (before after : List (Uuid × List Uuid)) : Type 0 where
    edges :
        (d k : Uuid)
        → contains (ids_of after d) k ≡ (contains (ids_of before d) k || m.id == k && contains ds d)
    ends : (d : Uuid) → contains ds d ≡ true → contains_key before d ≡ true
    domain : (d : Uuid) → contains_key after d ≡ contains_key before d
    sorted : AllSorted before → AllSorted after

  Linked-cons :
      (d : Uuid) (ds : List Uuid) (before after : List (Uuid × List Uuid)) (s : List Uuid)
      → get before d ≡ some s
      → Linked ds (insert d (add m.id s) before) after
      → Linked (d ∷ ds) before after
  Linked-cons d ds before after s e l = record {
    edges = λ c k.
        ground (arith, l.edges c k, get-insert d (add m.id s) before c, contains-add m.id s k);
    ends = λ c h. ground (arith, l.ends c, get-insert d (add m.id s) before c);
    domain = λ c. ground (arith, l.domain c, get-insert d (add m.id s) before c);
    sorted = λ h.
        l.sorted
          (λ c. ground (arith, get-insert d (add m.id s) before c, h c, h d, IsSorted-add m.id s));
  }

  link_one-Linked :
      (ds : List Uuid) (before after : List (Uuid × List Uuid))
      → link_one m ds before ≡ ok after
      → Linked ds before after
  unfolding link_one
  link_one-Linked [] before after h =
      let e : before ≡ after = cc in
      subst (Linked [] before) e (record {
        edges = λ d k. ground arith;
        ends = λ d h'. cc;
        domain = λ d. refl;
        sorted = λ h'. h';
      })
  link_one-Linked (d ∷ ds) before after h = elim (Option-cases (get before d)) [
    | inl e ↦ absurd (ground arith)
    | inr (s, e) ↦
        Linked-cons d ds before after s e
          (link_one-Linked ds (insert d (add m.id s) before) after (rw (e, link_one) at h))
  ]

-- Some migration of the list has identity `k` and depends on `d`.
abbrev has_edge : Uuid → Uuid → Migration → Bool
has_edge k d m = m.id == k && contains (depends m) d

record AllLinked (ms : List Migration) (before after : List (Uuid × List Uuid)) : Type 0 where
  edges :
      (d k : Uuid)
      → contains (ids_of after d) k ≡ (contains (ids_of before d) k || any (has_edge k d) ms)
  ends : (d k : Uuid) → any (has_edge k d) ms ≡ true → contains_key before d ≡ true
  domain : (d : Uuid) → contains_key after d ≡ contains_key before d
  sorted : AllSorted before → AllSorted after

link_all-AllLinked :
    (ms : List Migration) (before after : List (Uuid × List Uuid))
    → link_all ms before ≡ ok after
    → AllLinked ms before after
unfolding link_all
link_all-AllLinked [] before after h =
    let e : before ≡ after = cc in
    subst (AllLinked [] before) e (record {
      edges = λ d k. ground arith;
      ends = λ d k h'. cc;
      domain = λ d. refl;
      sorted = λ h'. h';
    })
link_all-AllLinked (m ∷ ms) before after h =
    let (middle, one, rest) = >>=-eq-ok (link_one m (depends m) before) (link_all ms) h in
    let first = link_one-Linked m (depends m) before middle one in
    let others = link_all-AllLinked ms middle after rest in
    record {
      edges = λ d k. ground (arith, first.edges d k, others.edges d k);
      ends = λ d k h'. ground (arith, first.ends d, first.domain d, others.ends d k);
      domain = λ d. others.domain d ∙ first.domain d;
      sorted = λ h'. others.sorted (first.sorted h');
    }

-- Every value of the map stands under its own identity.
abbrev IsKeyed : List (Uuid × Migration) → Type 0
IsKeyed = All (λ (e : Uuid × Migration). e.1.id ≡ e.0)

IsKeyed-insert :
    (x : Migration) (m : List (Uuid × Migration)) → IsKeyed m → IsKeyed (insert x.id x m)
IsKeyed-insert x [] h = (refl, tt)
IsKeyed-insert x ((j, w) ∷ m) h = ground (arith, IsKeyed-insert x m)

pub collect-IsKeyed :
    (xs : List Migration) (m : List (Uuid × Migration)) → IsKeyed m → IsKeyed (collect m xs)
unfolding collect
collect-IsKeyed [] m h = h
collect-IsKeyed (x ∷ xs) m h = collect-IsKeyed xs (insert x.id x m) (IsKeyed-insert x m h)

pub collect-IsSorted :
    (xs : List Migration) (m : List (Uuid × Migration))
    → IsSorted (keys m)
    → IsSorted (keys (collect m xs))
unfolding collect
collect-IsSorted [] m h = h
collect-IsSorted (x ∷ xs) m h =
    collect-IsSorted xs (insert x.id x m) (rw (keys-insert x.id x m) (IsSorted-add x.id (keys m) h))

IsKeyed-get :
    (l : List (Uuid × Migration)) (k : Uuid) (m : Migration)
    → IsKeyed l
    → get l k ≡ some m
    → m.id ≡ k
IsKeyed-get [] k m h e = cc
IsKeyed-get ((j, w) ∷ l) k m h e = ground (arith, IsKeyed-get l k m)

any-not_key :
    (m : List (Uuid × Migration)) (k d : Uuid)
    → IsKeyed m
    → contains (keys m) k ≡ false
    → any (has_edge k d) (values m) ≡ false
any-not_key [] k d h e = refl
any-not_key ((j, w) ∷ m) k d h e = ground (arith, any-not_key m k d)

-- The edges of the map's values are those of `deps`.
any-values :
    (m : List (Uuid × Migration)) (k d : Uuid)
    → IsKeyed m
    → IsNodup (keys m)
    → any (has_edge k d) (values m)
      ≡ (contains_key m k && contains (elim (get m k) [ none ↦ [] | some x ↦ depends x ]) d)
any-values [] k d h e = refl
any-values ((j, w) ∷ m) k d h e = ground (arith, any-values m k d, any-not_key m k d)

get-no_dependents :
    (ids : List Uuid) (d : Uuid)
    → get (no_dependents ids) d ≡ (if contains ids d then some [] else none)
unfolding no_dependents
get-no_dependents [] d = refl
get-no_dependents (i ∷ ids) d = ground (arith, get-no_dependents ids d)

pub linked-IsWellFormed :
    (list : List Migration) (dependents : List (Uuid × List Uuid))
    → link_all (values (collect [] list)) (no_dependents (keys (collect [] list))) ≡ ok dependents
    → IsWellFormed (graph (collect [] list) dependents)
unfolding dependent_ids
linked-IsWellFormed list dependents h =
    let m = collect [] list in
    let keyed = collect-IsKeyed list [] tt in
    let nodup = IsSorted-IsNodup (keys m) (collect-IsSorted list [] tt) in
    let all = link_all-AllLinked (values m) (no_dependents (keys m)) dependents h in
    record {
      keys_distinct = nodup;
      keyed = λ k x e. IsKeyed-get m k x keyed e;
      linked = λ k d.
          ground (arith, all.edges d k, any-values m k d keyed nodup, get-no_dependents (keys m) d);
      dependents_distinct = λ d.
          IsSorted-IsNodup (ids_of dependents d)
            (all.sorted (λ c. ground (arith, get-no_dependents (keys m) c)) d);
      deps_known = λ k d e. ground (
        arith,
        all.ends d k,
        any-values m k d keyed nodup,
        get-no_dependents (keys m) d,
        contains-keys m d,
      );
    }

-- A dependency that the map does not hold stops the loop.
link_one-err :
    (m : Migration) (ds : List Uuid) (before : List (Uuid × List Uuid)) (e : Error)
    → link_one m ds before ≡ err e
    → (e.code ≡ migration_unknown_dependency)
      × ((d : Uuid) × (contains ds d ≡ true) × (contains_key before d ≡ false))
unfolding link_one
link_one-err m [] before e h = cc
link_one-err m (d ∷ ds) before e h = elim (Option-cases (get before d)) [
  | inl none_there ↦ (ground arith, (d, ground arith, ground arith))
  | inr (s, there) ↦
      let (code, (c, member, absent)) =
        link_one-err m ds (insert d (add m.id s) before) e (rw (there, link_one) at h) in
      (code, (c, ground arith, ground (arith, get-insert d (add m.id s) before c)))
]

link_all-err :
    (ms : List Migration) (before : List (Uuid × List Uuid)) (e : Error)
    → link_all ms before ≡ err e
    → (e.code ≡ migration_unknown_dependency)
      × ((k d : Uuid) × (any (has_edge k d) ms ≡ true) × (contains_key before d ≡ false))
unfolding link_all
link_all-err [] before e h = cc
link_all-err (m ∷ ms) before e h = elim (Result-cases (link_one m (depends m) before)) [
  | inr (middle, one) ↦
      let (code, (k, d, edge, absent)) = link_all-err ms middle e (rw one at h) in
      (
        code,
        (
          k,
          d,
          ground arith,
          ground (arith, (link_one-Linked m (depends m) before middle one).domain d),
        ),
      )
  | inl (e', one) ↦
      let (code, (d, member, absent)) = link_one-err m (depends m) before e' one in
      let same : e' ≡ e = cc in (rw same at code, (m.id, d, ground arith, absent))
]

-- If linking a project fails, some dependency of it is not one of its migrations.
pub linked-err :
    (list : List Migration) (e : Error)
    → link_all (values (collect [] list)) (no_dependents (keys (collect [] list))) ≡ err e
    → (e.code ≡ migration_unknown_dependency)
      × ((k d : Uuid) × (contains (deps_in (collect [] list) k) d ≡ true)
          × (contains_key (collect [] list) d ≡ false))
linked-err list e h =
    let m = collect [] list in
    let keyed = collect-IsKeyed list [] tt in
    let nodup = IsSorted-IsNodup (keys m) (collect-IsSorted list [] tt) in
    let (code, (k, d, edge, absent)) = link_all-err (values m) (no_dependents (keys m)) e h in
    (
      code,
      (
        k,
        d,
        ground (arith, any-values m k d keyed nodup),
        ground (arith, get-no_dependents (keys m) d, contains-keys m d),
      ),
    )
