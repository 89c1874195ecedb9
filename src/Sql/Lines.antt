-- ===== src/Sql/Lines.antt =====
-- crates/zapadka-parser/src/classify.rs: `LineIndex`, from byte offsets to line numbers.
-- A text is its code points, so each counts as many bytes as UTF-8 takes for it.
use zapadka.Common.{
  ℕ, suc, ◌+◌, ◌-◌, ◌≡◌, refl, ap, ◌∙◌, Text, List, [], ◌∷◌, ◌==◌, if◌then◌else◌, ltb, arith, ◌≤◌,
  ◌&&◌,
}

unfoldable pub utf8_len : ℕ → ℕ
utf8_len c = if ltb c 0x80 then 1 else if ltb c 0x800 then 2 else if ltb c 0x10000 then 3 else 4

-- `LineIndex::new`: the offsets of the newlines of a text that starts at the offset.
unfoldable pub newlines_from : ℕ → Text → List ℕ
newlines_from offset [] = []
newlines_from offset (c ∷ s) =
    let rest = newlines_from (offset + utf8_len c) s in if c == b'\n' then offset ∷ rest else rest

-- `partition_point(|&newline| newline < offset)`, on a list that grows.
unfoldable pub before : ℕ → List ℕ → ℕ
before offset [] = 0
before offset (newline ∷ rest) = if ltb newline offset then suc (before offset rest) else 0

-- `LineIndex::line_of`.
unfoldable pub line_of : Text → ℕ → ℕ
line_of script offset = before offset (newlines_from 0 script) + 1

-- The line of a byte, counted along the text: one more after each newline that is passed.
pub line_at : Text → ℕ → ℕ
line_at [] offset = 1
line_at (c ∷ s) offset =
    let rest = line_at s (offset - utf8_len c) in
    if ltb 0 offset && c == b'\n' then suc rest else rest

pub utf8_len_pos : (c : ℕ) → 1 ≤ utf8_len c
unfolding utf8_len
utf8_len_pos c = ground arith

newlines_past :
    (offset start : ℕ) (s : Text) → offset ≤ start → before offset (newlines_from start s) ≡ 0
unfolding before newlines_from
newlines_past offset start [] h = refl
newlines_past offset start (c ∷ s) h =
    ground (arith, utf8_len_pos c, newlines_past offset (start + utf8_len c) s)

line_at_start : (s : Text) → line_at s 0 ≡ 1
unfolding line_at
line_at_start [] = refl
line_at_start (c ∷ s) = ground (arith, line_at_start s)

line_at_past : (s : Text) (offset : ℕ) → offset ≡ 0 → line_at s offset ≡ 1
line_at_past s offset e = rw e (line_at_start s)

before-line_at :
    (s : Text) (start offset : ℕ)
    → before offset (newlines_from start s) + 1 ≡ line_at s (offset - start)
unfolding before newlines_from line_at
before-line_at [] start offset = refl
before-line_at (c ∷ s) start offset =
    let e : offset - start - utf8_len c ≡ offset - (start + utf8_len c) = omega arith in
    rw e (
      ground (
        arith,
        utf8_len_pos c,
        before-line_at s (start + utf8_len c) offset,
        newlines_past offset (start + utf8_len c) s,
        line_at_past s (offset - (start + utf8_len c)),
      ))

minus_zero : (n : ℕ) → n - 0 ≡ n
minus_zero n = omega arith

-- The index of newlines gives each byte the line that counting along the script gives it.
pub line_of-line_at : (script : Text) (offset : ℕ) → line_of script offset ≡ line_at script offset
unfolding line_of
line_of-line_at script offset =
    before-line_at script 0 offset ∙ ap (line_at script) (minus_zero offset)
