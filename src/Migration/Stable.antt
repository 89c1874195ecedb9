-- ===== src/Migration/Stable.antt =====
-- `normalize_slug` gives a slug back unchanged.
use mathlib.Core.Path.{subst}
use zapadka.Common.{
  ℕ, ◌≤◌, ◌≡◌, refl, sym, ap, ◌∙◌, Bool, true, false, not, [], ◌∷◌, ◌++◌, arith, Text, ◌==◌,
  if◌then◌else◌, length, take, is_empty, zero, suc, append_assoc, append-nil, trim_end_by, ◌⊎◌, inl,
  inr,
}
use zapadka.Errors.{ok, err, new, manifest_invalid}
use zapadka.Migration.{is_alphanumeric, to_lower, slug_loop, normalize_slug}
use zapadka.Migration.Slugs.{is_word, spelled, normalize_slug-spelled}

word_kept : (c : ℕ) → is_word c ≡ true → (is_alphanumeric c ≡ true) × (to_lower c ≡ c)
word_kept c h = (ground arith, ground arith)

round :
    (s pre acc : Text) (b : Bool) (low c : ℕ)
    → b ≡ true
    → low ≡ c
    → slug_loop s (if b then pre ++ low ∷ [] else acc) (not b) ≡ slug_loop s (pre ++ c ∷ []) false
round s pre acc true low c h e = ap (λ l. slug_loop s (pre ++ l ∷ []) false) e
round s pre acc false low c h e = cc

-- One round of the loop, on a word character behind nothing pending, behind a dash, and on a dash.
slug_loop-word :
    (c : ℕ) (s acc : Text)
    → is_word c ≡ true
    → slug_loop (c ∷ s) acc false ≡ slug_loop s (acc ++ c ∷ []) false
unfolding slug_loop
slug_loop-word c s acc h =
    let (alphanumeric, low) = word_kept c h in
    round s acc acc (is_alphanumeric c) (to_lower c) c alphanumeric low

slug_loop-separated :
    (c : ℕ) (s : Text) (x : ℕ) (acc : Text)
    → is_word c ≡ true
    → slug_loop (c ∷ s) (x ∷ acc) true ≡ slug_loop s ((x ∷ acc ++ b'-' ∷ []) ++ c ∷ []) false
unfolding slug_loop
slug_loop-separated c s x acc h =
    let (alphanumeric, low) = word_kept c h in
    round s (x ∷ acc ++ b'-' ∷ []) (x ∷ acc) (is_alphanumeric c) (to_lower c) c alphanumeric low

slug_loop-dash : (s acc : Text) → slug_loop (b'-' ∷ s) acc false ≡ slug_loop s acc true
unfolding slug_loop
slug_loop-dash s acc = refl

take-all : (n : ℕ) (s : Text) → length s ≤ n → take n s ≡ s
take-all zero [] h = refl
take-all zero (x ∷ s) h = absurd (omega arith)
take-all (suc n) [] h = refl
take-all (suc n) (x ∷ s) h = ap (λ t. x ∷ t) (take-all n s (omega arith))

spelled_nonempty : (s : Text) → spelled true false s ≡ true → is_empty s ≡ false
spelled_nonempty [] h = cc
spelled_nonempty (c ∷ s) h = refl

trim_end_by-spelled :
    (dash : Bool) (s : Text) → spelled true dash s ≡ true → trim_end_by (λ c. c == b'-') s ≡ s
trim_end_by-spelled dash [] h = refl
trim_end_by-spelled dash (c ∷ s) h =
    ground (arith, trim_end_by-spelled true s, trim_end_by-spelled false s, spelled_nonempty s)

-- What comes next in a spelled text: a word character, or a dash that a word follows.
spelled_next :
    (dash : Bool) (c : ℕ) (s : Text)
    → spelled true dash (c ∷ s) ≡ true
    → (is_word c ≡ true) × (spelled true true s ≡ true)
      ⊎ (c ≡ b'-') × (dash ≡ true) × (spelled true false s ≡ true)
spelled_next dash c s h = ground arith

-- The loop copies a spelled text behind what it has written.
slug_loop-spelled :
    (s : Text) (x : ℕ) (acc : Text)
    → (spelled true true s ≡ true → slug_loop s (x ∷ acc) false ≡ x ∷ acc ++ s)
      × (spelled true false s ≡ true → slug_loop s (x ∷ acc) true ≡ x ∷ acc ++ b'-' ∷ s)
unfolding slug_loop
slug_loop-spelled [] x acc = (λ h. sym (append-nil (x ∷ acc)), λ h. cc)
slug_loop-spelled (c ∷ s) x acc = (
  λ h. elim (spelled_next true c s h) [
    | inl (word, rest) ↦
        slug_loop-word c s (x ∷ acc) word
        ∙ ((slug_loop-spelled s x (acc ++ c ∷ [])).0 rest ∙ append_assoc (x ∷ acc) (c ∷ []) s)
    | inr (dash, _, rest) ↦
        subst (λ d. slug_loop (d ∷ s) (x ∷ acc) false ≡ x ∷ acc ++ d ∷ s) (sym dash)
          (slug_loop-dash s (x ∷ acc) ∙ (slug_loop-spelled s x acc).1 rest)
  ],
  λ h. elim (spelled_next false c s h) [
    | inl (word, rest) ↦
        slug_loop-separated c s x acc word
        ∙ ((slug_loop-spelled s x ((acc ++ b'-' ∷ []) ++ c ∷ [])).0 rest
            ∙ (append_assoc (x ∷ acc ++ b'-' ∷ []) (c ∷ []) s
                ∙ append_assoc (x ∷ acc) (b'-' ∷ []) (c ∷ s)))
    | inr (_, impossible, _) ↦ cc
  ],
)

slug_loop-slug : (s : Text) → spelled true false s ≡ true → slug_loop s [] false ≡ s
slug_loop-slug [] h = cc
slug_loop-slug (c ∷ s) h = elim (spelled_next false c s h) [
  | inl (word, rest) ↦ slug_loop-word c s [] word ∙ (slug_loop-spelled s c []).0 rest
  | inr (_, impossible, _) ↦ cc
]

choose :
    (b : Bool) (x slug : Text)
    → b ≡ false
    → x ≡ slug
    → (if b then err (new manifest_invalid) else ok x) ≡ ok slug
choose true x slug h e = cc
choose false x slug h e = ap ok e

-- Normalizing a slug that was normalized gives it back.
pub normalize_slug_idempotent :
    (input slug : Text) → normalize_slug input ≡ ok slug → normalize_slug slug ≡ ok slug
unfolding normalize_slug
normalize_slug_idempotent input slug h =
    let (shape, short) = normalize_slug-spelled input slug h in
    let copied = slug_loop-slug slug shape in
    let whole = take-all 80 slug short in
    let kept = trim_end_by-spelled false slug shape in
    stable (slug_loop slug [] false) slug copied (spelled_nonempty slug shape) whole kept
  where
    stable :
        (loop slug : Text)
        → loop ≡ slug
        → is_empty slug ≡ false
        → take 80 slug ≡ slug
        → trim_end_by (λ c. c == b'-') slug ≡ slug
        → (if is_empty loop
            then err (new manifest_invalid)
            else ok (trim_end_by (λ c. c == b'-') (take 80 loop)))
          ≡ ok slug
    stable loop slug copied nonempty whole kept =
        choose (is_empty loop) _ slug (ap is_empty copied ∙ nonempty) (
          ap (λ t. trim_end_by (λ c. c == b'-') (take 80 t)) copied
          ∙ (ap (trim_end_by (λ c. c == b'-')) whole ∙ kept))
