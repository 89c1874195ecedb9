-- ===== src/Sql/Positions.antt =====
-- crates/zapadka-parser/src/ffi.rs: where in a script an error of the parser is.
-- A text is its code points. An offset counts bytes, of which UTF-8 takes one to four for each.
use zapadka.Common.{
  ℕ, zero, suc, ◌+◌, ◌-◌, ◌≤◌, ◌≡◌, refl, ap, Text, [], ◌∷◌, ◌==◌, ltb, if◌then◌else◌, take, length,
  arith, Bool-cases, inl, inr, ◌∙◌,
}
use zapadka.Sql.Lines.{utf8_len, utf8_len_pos}

-- `str::len`.
unfoldable pub byte_len : Text → ℕ
byte_len [] = 0
byte_len (c ∷ s) = utf8_len c + byte_len s

-- `byte_offset_of_character`: an index past the end is the end.
unfoldable pub byte_offset_of_character : Text → ℕ → ℕ
byte_offset_of_character [] characters = 0
byte_offset_of_character (c ∷ s) zero = 0
byte_offset_of_character (c ∷ s) (suc characters) =
    utf8_len c + byte_offset_of_character s characters

-- `&text[..offset]`, with the offset moved back to the end of the text or to a character boundary.
unfoldable pub prefix_at : Text → ℕ → Text
prefix_at [] offset = []
prefix_at (c ∷ s) offset =
    let rest = c ∷ prefix_at s (offset - utf8_len c) in if ltb offset (utf8_len c) then [] else rest

-- `bytes().filter(|&b| b == b'\n').count()`.
unfoldable pub newlines : Text → ℕ
newlines [] = 0
newlines (c ∷ s) = (if c == b'\n' then 1 else 0) + newlines s

-- What stands behind the last newline, or the whole text when there is none.
unfoldable pub last_line : Text → Text → Text
last_line line [] = line
last_line line (c ∷ s) = last_line (if c == b'\n' then [] else c ∷ line) s

-- `line_and_column`.
unfoldable pub line_and_column : Text → ℕ → ℕ × ℕ
line_and_column text offset =
    let before = prefix_at text offset in (newlines before + 1, length (last_line [] before) + 1)

-- Cutting at the byte offset of a character gives the characters that stand before it.
pub prefix_at-byte_offset :
    (text : Text) (k : ℕ) → prefix_at text (byte_offset_of_character text k) ≡ take k text
unfolding prefix_at byte_offset_of_character
prefix_at-byte_offset [] zero = refl
prefix_at-byte_offset [] (suc k) = refl
prefix_at-byte_offset (c ∷ s) zero = ground (arith, utf8_len_pos c)
prefix_at-byte_offset (c ∷ s) (suc k) =
    let e : utf8_len c + byte_offset_of_character s k - utf8_len c ≡ byte_offset_of_character s k =
      omega arith in
    rw e (ground (arith, prefix_at-byte_offset s k))

-- The place behind a text for a reader who moves one character at a time: a newline takes the
-- reader to the first column of the next line, any other character to the next column.
unfoldable pub walk : ℕ → ℕ → Text → ℕ × ℕ
walk line column [] = (line, column)
walk line column (c ∷ s) =
    walk (if c == b'\n' then line + 1 else line) (if c == b'\n' then 1 else column + 1) s

walk_counts :
    (line column : ℕ) (seen s : Text)
    → column ≡ length seen + 1
    → (line + newlines s, length (last_line seen s) + 1) ≡ walk line column s
unfolding walk newlines last_line
walk_counts line column seen [] h = ground arith
walk_counts line column seen (c ∷ s) h = elim (Bool-cases (c == b'\n')) [
  | inl ends ↦
      let e : line + (1 + newlines s) ≡ line + 1 + newlines s = omega arith in
      rw ends
        (ap (λ (n : ℕ). (n, length (last_line [] s) + 1)) e ∙ walk_counts (line + 1) 1 [] s refl)
  | inr stays ↦
      let e : line + (0 + newlines s) ≡ line + newlines s = omega arith in
      rw stays (
        ap (λ (n : ℕ). (n, length (last_line (c ∷ seen) s) + 1)) e
        ∙ walk_counts line (column + 1) (c ∷ seen) s (ground arith))
]

-- The position of an error that the server places at a character is where a reader stands who
-- started at line 1 and column 1 and read the characters before it.
pub line_and_column-of_character :
    (text : Text) (k : ℕ)
    → line_and_column text (byte_offset_of_character text k) ≡ walk 1 1 (take k text)
unfolding line_and_column
line_and_column-of_character text k =
    let before = take k text in
    ap (λ (b : Text). (newlines b + 1, length (last_line [] b) + 1)) (prefix_at-byte_offset text k)
    ∙ ap (λ (n : ℕ). (n, length (last_line [] before) + 1))
        (let e : newlines before + 1 ≡ 1 + newlines before = omega arith in e)
    ∙ walk_counts 1 1 [] before refl

newlines-prefix_at-le :
    (text : Text) (offset : ℕ) → newlines (prefix_at text offset) ≤ newlines text
unfolding prefix_at newlines
newlines-prefix_at-le [] offset = omega arith
newlines-prefix_at-le (c ∷ s) offset = ground (arith, newlines-prefix_at-le s (offset - utf8_len c))

length-last_line-le : (line s : Text) → length (last_line line s) ≤ length line + length s
unfolding last_line
length-last_line-le line [] = omega arith
length-last_line-le line (c ∷ s) =
    ground (arith, length-last_line-le [] s, length-last_line-le (c ∷ line) s)

length-prefix_at-le : (text : Text) (offset : ℕ) → length (prefix_at text offset) ≤ length text
unfolding prefix_at
length-prefix_at-le [] offset = omega arith
length-prefix_at-le (c ∷ s) offset = ground (arith, length-prefix_at-le s (offset - utf8_len c))

-- Whatever offset is reported, its line is a line of the text and its column is at most one behind
-- the text's last character, both counted from one.
pub line_and_column_bounds :
    (text : Text) (offset : ℕ)
    → (1 ≤ (line_and_column text offset).0)
      × ((line_and_column text offset).0 ≤ newlines text + 1)
      × (1 ≤ (line_and_column text offset).1)
      × ((line_and_column text offset).1 ≤ length text + 1)
unfolding line_and_column
line_and_column_bounds text offset = omega (
  arith,
  newlines-prefix_at-le text offset,
  length-last_line-le [] (prefix_at text offset),
  length-prefix_at-le text offset,
)
