-- ===== src/Migration/Slugs.antt =====
-- The shape of the slugs that `normalize_slug` gives, and that it leaves them alone.
use mathlib.Core.Path.{subst}
use zapadka.Common.{
  ℕ, ◌≤◌, ◌≡◌, refl, Bool, true, false, not, ◌&&◌, ◌||◌, [], ◌∷◌, ◌++◌, arith, Text, ◌==◌,
  if◌then◌else◌, length, take, is_empty, trim_end_by, zero, suc,
}
use zapadka.Errors.{ok, err, new, manifest_invalid}
use zapadka.Migration.{
  is_lower, is_digit, is_alphanumeric, to_lower, slug_loop, normalize_slug, max_slug,
}

-- A small letter or a digit.
abbrev pub is_word : ℕ → Bool
is_word c = is_lower c || is_digit c

-- Words of small letters and digits with single dashes between them. `dash` says whether a dash may
-- come next, and with `closed` a dash may not come last.
abbrev pub spelled : Bool → Bool → Text → Bool
spelled closed dash [] = dash || not closed
spelled closed dash (c ∷ s) =
    is_word c && spelled closed true s || c == b'-' && dash && spelled closed false s

to_lower-is_word : (c : ℕ) → is_alphanumeric c ≡ true → is_word (to_lower c) ≡ true
to_lower-is_word c h = ground arith

-- A slug that ends in a word, followed by a dash and a word character or by one.
spelled-word :
    (dash : Bool) (s : Text) (c : ℕ)
    → is_word c ≡ true
    → spelled false dash s ≡ true
    → spelled true dash (s ++ c ∷ []) ≡ true
spelled-word dash [] c h k = ground arith
spelled-word dash (x ∷ s) c h k = ground (arith, spelled-word true s c, spelled-word false s c)

spelled-dash :
    (dash : Bool) (s : Text)
    → spelled true dash s ≡ true
    → spelled false dash (s ++ b'-' ∷ []) ≡ true
spelled-dash dash [] k = ground arith
spelled-dash dash (x ∷ s) k = ground (arith, spelled-dash true s, spelled-dash false s)

spelled_open : (dash : Bool) (s : Text) → spelled true dash s ≡ true → spelled false dash s ≡ true
spelled_open dash [] k = ground arith
spelled_open dash (x ∷ s) k = ground (arith, spelled_open true s, spelled_open false s)

-- What the loop has written so far.
abbrev Written : Text → Type 0
Written slug = (is_empty slug || spelled true false slug) ≡ true

Written-step :
    (slug : Text) (pending : Bool) (c : ℕ)
    → is_word c ≡ true
    → Written slug
    → spelled true false
        ((if pending && not (is_empty slug) then slug ++ b'-' ∷ [] else slug) ++ c ∷ [])
      ≡ true
Written-step [] pending c h k = ground arith
Written-step (x ∷ s) true c h k =
    spelled-word false (x ∷ s ++ b'-' ∷ []) c h (spelled-dash false (x ∷ s) k)
Written-step (x ∷ s) false c h k = spelled-word false (x ∷ s) c h (spelled_open false (x ∷ s) k)

Written-choice :
    (b : Bool) (new old : Text)
    → Written old
    → (b ≡ true → Written new)
    → Written (if b then new else old)
Written-choice true new old h k = k refl
Written-choice false new old h k = h

either_way : (slug : Text) → spelled true false slug ≡ true → Written slug
either_way slug h = ground arith

Written-slug_loop :
    (s slug : Text) (pending : Bool) → Written slug → Written (slug_loop s slug pending)
unfolding slug_loop
Written-slug_loop [] slug pending h = h
Written-slug_loop (c ∷ s) slug pending h = Written-slug_loop s _ _ (
    Written-choice (is_alphanumeric c) _ slug h (λ word.
      let w = Written-step slug pending (to_lower c) (to_lower-is_word c word) h in
      either_way
        ((if pending && not (is_empty slug) then slug ++ b'-' ∷ [] else slug) ++ to_lower c ∷ [])
        w))

spelled-take :
    (n : ℕ) (dash : Bool) (s : Text)
    → spelled false dash s ≡ true
    → spelled false dash (take n s) ≡ true
spelled-take zero dash s h = ground arith
spelled-take (suc n) dash [] h = h
spelled-take (suc n) dash (x ∷ s) h = ground (arith, spelled-take n true s, spelled-take n false s)

abbrev trimmed : Text → Text
trimmed s = trim_end_by (λ c. c == b'-') s

spelled-trimmed :
    (dash : Bool) (s : Text)
    → spelled false dash s ≡ true
    → (is_empty (trimmed s) || spelled true dash (trimmed s)) ≡ true
spelled-trimmed dash [] h = refl
spelled-trimmed dash (c ∷ s) h = ground (arith, spelled-trimmed true s, spelled-trimmed false s)

length-take-le : (n : ℕ) (s : Text) → length (take n s) ≤ n
length-take-le zero s = omega arith
length-take-le (suc n) [] = omega arith
length-take-le (suc n) (x ∷ s) = omega (arith, length-take-le n s)

length-trimmed-le : (s : Text) → length (trimmed s) ≤ length s
length-trimmed-le [] = omega arith
length-trimmed-le (c ∷ s) = ground (arith, length-trimmed-le s)

-- A slug keeps its first character when its end is trimmed.
trimmed_nonempty :
    (s : Text) → spelled false false s ≡ true → is_empty s ≡ false → is_empty (trimmed s) ≡ false
trimmed_nonempty [] h k = cc
trimmed_nonempty (c ∷ s) h k = ground arith

cut_slug :
    (n : ℕ) (whole : Text)
    → Written whole
    → is_empty whole ≡ false
    → (spelled true false (trimmed (take (suc n) whole)) ≡ true)
      × (length (trimmed (take (suc n) whole)) ≤ suc n)
cut_slug n [] w h = cc
cut_slug n (c ∷ s) w h =
    let cut = take (suc n) (c ∷ s) in
    let opened = spelled-take (suc n) false (c ∷ s) (spelled_open false (c ∷ s) w) in
    let shape = spelled-trimmed false cut opened in
    let some_left = trimmed_nonempty cut opened refl in
    (
      either_of _ _ shape some_left,
      omega (arith, length-take-le (suc n) (c ∷ s), length-trimmed-le cut),
    )
  where
    either_of : (a b : Bool) → (a || b) ≡ true → a ≡ false → b ≡ true
    either_of a b h k = ground arith

slug_of-eq :
    (whole slug : Text)
    → (if is_empty whole then err (new manifest_invalid) else ok (trimmed (take max_slug whole)))
      ≡ ok slug
    → (is_empty whole ≡ false) × (trimmed (take max_slug whole) ≡ slug)
slug_of-eq [] slug h = cc
slug_of-eq (c ∷ s) slug h = (refl, ok_eq (trimmed (take max_slug (c ∷ s))) slug h)
  where
    ok_eq : (a b : Text) → ok a ≡ ok b → a ≡ b
    ok_eq a b h = cc

-- A slug that `normalize_slug` gives is small letters and digits with single dashes between them,
-- and at most 80 characters long.
pub normalize_slug-spelled :
    (input slug : Text)
    → normalize_slug input ≡ ok slug
    → (spelled true false slug ≡ true) × (length slug ≤ 80)
unfolding normalize_slug
normalize_slug-spelled input slug h =
    let whole = slug_loop input [] false in
    let (nonempty, e) = slug_of-eq whole slug h in
    subst (λ t. (spelled true false t ≡ true) × (length t ≤ 80)) e
      (cut_slug 79 whole (Written-slug_loop input [] false refl) nonempty)
