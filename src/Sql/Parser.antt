-- ===== src/Sql/Parser.antt =====
-- crates/zapadka-parser/src/lib.rs, tree.rs and ffi.rs: from a script to its statements.
-- libpg_query, `serde_json` and the Unicode tables are not code of this repository: `Parser` holds
-- what the code calls of them. The message of an error is left out. A `usize` has 64 bits.
use zapadka.Common.{
  ℕ, zero, suc, ◌+◌, ◌≡◌, ◌⊎◌, refl, Text, codes, text_eq, Bool, true, false, ◌&&◌, List, [], ◌∷◌,
  Option, none, some, ◌==◌, if◌then◌else◌, ltb, retain, map, arith, ◌≢◌, Option-cases, inl, inr,
}
use zapadka.Sql.Values.{
  get_field, items_of, Value, Fields, null, boolean, natural, below_zero, real, string, array,
  object, stop, field, member, as_natural, as_array, as_object, and_then, unwrap_or,
}
use zapadka.Sql.Statements.{Statement, is_transaction_control}
use zapadka.Sql.Classify.{kind_of}
use zapadka.Sql.Lines.{line_of, utf8_len}
use zapadka.Sql.Positions.{byte_offset_of_character, line_and_column}

-- `ParseError`.
pub record ParseError : Type 0 where
  pub line : ℕ
  pub column : ℕ
  pub offset : Option ℕ

pub data Parsing {ℓ} (A : Type ℓ) : Type ℓ where
  parsed : A → Parsing A
  malformed : ParseError → Parsing A

pub Parsing-cases {ℓ} :
    {A : Type ℓ} (r : Parsing A)
    → ((e : ParseError) × (r ≡ malformed e)) ⊎ ((a : A) × (r ≡ parsed a))
Parsing-cases (malformed e) = inl (e, refl)
Parsing-cases (parsed a) = inr (a, refl)

-- What libpg_query answers: the tree, or the 1-based position of an error, where no position that
-- is positive is zero.
pub data Answer : Type 0 where
  accepted : Text → Answer
  refused : ℕ → Answer

-- `FormatOptions`.
pub record FormatOptions : Type 0 where
  pub pretty_print : Bool
  pub indent_size : ℕ
  pub max_line_length : ℕ
  pub trailing_newline : Bool
  pub commas_start_of_line : Bool

pub record Parser : Type 0 where
  pub pg_query_parse : Text → Answer
  -- The C part of `ffi::format`: the tree, its comments with their spacing capped, and the deparser.
  pub pg_query_deparse : FormatOptions → Text → Answer
  -- `serde_json::from_str`, `Value::sort_all_objects` and `serde_json::to_string`.
  pub from_str : Text → Option Value
  pub sort_all_objects : Value → Value
  pub to_string : Value → Option Text
  pub to_lowercase : Text → Text

abbrev pub usize_limit : ℕ
usize_limit = 0x10000000000000000

abbrev pub u32_limit : ℕ
u32_limit = 0x100000000

-- `nul_position`: the byte offset of the first NUL.
unfoldable pub nul_position : Text → Option ℕ
nul_position [] = none
nul_position (c ∷ s) = elim (c == 0) [
  | true ↦ some 0
  | false ↦ elim (nul_position s) [ none ↦ none | some n ↦ some (utf8_len c + n) ]
]

abbrev located : Text → ℕ → ParseError
located sql offset =
    let (line, column) = line_and_column sql offset in
    record { line = line; column = column; offset = some offset }

-- `parse_error`, on the position that the server reports.
unfoldable pub parse_error : ℕ → Text → ParseError
parse_error zero sql = record { line = 1; column = 1; offset = none }
parse_error (suc characters) sql = located sql (byte_offset_of_character sql characters)

-- `c_input`, and what follows it in `parse_to_json` and `ffi::format`.
unfoldable pub call_c : (Text → Answer) → Text → Parsing Text
call_c call sql = elim (nul_position sql) [
  | some offset ↦ malformed (located sql offset)
  | none ↦ elim (call sql) [
    | accepted text ↦ parsed text
    | refused cursorpos ↦ malformed (parse_error cursorpos sql)
  ]
]

-- `tree::error`.
abbrev pub undecodable : ParseError
undecodable = record { line = 1; column = 1; offset = none }

-- `Value::is_object`, `Map::len` and `values().all(Value::is_object)`.
abbrev pub is_object : Value → Bool
is_object (object fs) = true
is_object null = false
is_object (boolean b) = false
is_object (natural n) = false
is_object (below_zero n) = false
is_object real = false
is_object (string t) = false
is_object (array vs) = false

abbrev pub len : Fields → ℕ
len stop = 0
len (field k v fs) = suc (len fs)

abbrev pub all_objects : Fields → Bool
all_objects stop = true
all_objects (field k v fs) = is_object v && all_objects fs

-- The check of `decode` on one statement.
unfoldable pub is_node : Value → Bool
is_node raw = elim (and_then (member raw (codes "stmt")) as_object) [
  | none ↦ false
  | some node ↦ len node == 1 && all_objects node
]

unfoldable pub all_nodes : List Value → Bool
all_nodes [] = true
all_nodes (raw ∷ rest) = is_node raw && all_nodes rest

-- `Tree`. What `decode` has checked of the statements stays with them.
pub record Tree : Type 0 where
  pub version : ℕ
  pub statements : List Value
  pub nodes : all_nodes statements ≡ true

abbrev pub to_u32 : ℕ → Option ℕ
to_u32 n = if ltb n u32_limit then some n else none

abbrev pub to_usize : ℕ → Option ℕ
to_usize n = if ltb n usize_limit then some n else none

unfoldable pub version_of : Value → Option ℕ
version_of root =
    and_then (and_then (and_then (member root (codes "version")) as_natural) to_u32)
      (λ version. if version == 0 then none else some version)

abbrev checked : ℕ → (statements : List Value) (b : Bool) → all_nodes statements ≡ b → Parsing Tree
checked version statements true e =
    parsed (record { version = version; statements = statements; nodes = e })
checked version statements false e = malformed undecodable

unfoldable pub decode_root : Value → Parsing Tree
decode_root root = elim (version_of root) [
  | none ↦ malformed undecodable
  | some version ↦ elim (and_then (member root (codes "stmts")) as_array) [
    | none ↦ malformed undecodable
    | some statements ↦ checked version statements (all_nodes statements) refl
  ]
]

-- `decode`.
unfoldable pub decode : Parser → Text → Parsing Tree
decode parser json = elim (parser.from_str json) [
  | none ↦ malformed undecodable
  | some root ↦ decode_root root
]

-- `tree::parse`.
unfoldable pub parse_tree : Parser → Text → Parsing Tree
parse_tree parser sql = elim (call_c parser.pg_query_parse sql) [
  | malformed e ↦ malformed e
  | parsed json ↦ decode parser json
]

-- `iter().next()`.
abbrev pub first_field : Fields → Option (Text × Value)
first_field stop = none
first_field (field k v fs) = some (k, v)

abbrev pub offset_of : Value → Text → Option ℕ
offset_of raw key = and_then (and_then (member raw key) as_natural) to_usize

-- `classify::statement`.
unfoldable pub statement : Parser → Text → Value → Option Statement
statement parser script raw = and_then (and_then (member raw (codes "stmt")) as_object) (λ node.
    and_then (first_field node) (λ entry.
      let location = unwrap_or (offset_of raw (codes "stmt_location")) 0 in
      some (record {
        node_type = entry.0;
        kind = kind_of parser.to_lowercase entry.0 entry.1;
        location = location;
        length = offset_of raw (codes "stmt_len");
        line = line_of script location;
      })))

-- `Option::expect`.
abbrev expect {ℓ} : {A : Type ℓ} (o : Option A) → o ≢ none → A
expect (some a) h = a
expect none h = absurd (h refl)

-- A node that `decode` lets through is a statement.
pub statement-ne-none :
    (parser : Parser) (script : Text) (raw : Value)
    → is_node raw ≡ true
    → statement parser script raw ≢ none
unfolding is_node statement
statement-ne-none parser script raw h =
    elim (Option-cases (and_then (member raw (codes "stmt")) as_object)) [
      | inl e ↦ ground arith
      | inr (stop, e) ↦ ground arith
      | inr (field k v fs, e) ↦ ground arith
    ]

pub all_nodes-head :
    (raw : Value) (rest : List Value) → all_nodes (raw ∷ rest) ≡ true → is_node raw ≡ true
unfolding all_nodes
all_nodes-head raw rest h = ground arith

pub all_nodes-tail :
    (raw : Value) (rest : List Value) → all_nodes (raw ∷ rest) ≡ true → all_nodes rest ≡ true
unfolding all_nodes
all_nodes-tail raw rest h = ground arith

-- The loop of `classify::classify`.
unfoldable pub classify_all :
    Parser → Text → (raws : List Value) → all_nodes raws ≡ true → List Statement
classify_all parser script [] h = []
classify_all parser script (raw ∷ rest) h =
    expect (statement parser script raw)
      (statement-ne-none parser script raw (all_nodes-head raw rest h))
    ∷ classify_all parser script rest (all_nodes-tail raw rest h)

some-expect {ℓ} : {A : Type ℓ} (o : Option A) (h : o ≢ none) → some (expect o h) ≡ o
some-expect (some a) h = refl
some-expect none h = absurd (h refl)

-- A tree that was decoded is classified without a panic, in order, and each of its nodes becomes
-- the statement that `statement` reads off it.
pub classify_all_lem :
    (parser : Parser) (script : Text) (raws : List Value) (h : all_nodes raws ≡ true)
    → map some (classify_all parser script raws h) ≡ map (statement parser script) raws
unfolding classify_all
classify_all_lem parser script [] h = refl
classify_all_lem parser script (raw ∷ rest) h = rw (
  some-expect (statement parser script raw)
      (statement-ne-none parser script raw (all_nodes-head raw rest h)),
  classify_all_lem parser script rest (all_nodes-tail raw rest h),
)

-- `ParsedScript`.
pub record ParsedScript : Type 0 where
  pub parser_version : ℕ
  pub statements : List Statement

-- `classify::classify`.
unfoldable pub classify : Parser → Tree → Text → ParsedScript
classify parser tree script = record {
  parser_version = tree.version;
  statements = classify_all parser script tree.statements tree.nodes;
}

-- `parse`.
unfoldable pub parse : Parser → Text → Parsing ParsedScript
unfolding nul_position call_c parse_tree decode decode_root version_of is_node all_nodes classify
    classify_all statement line_of kind_of get_field items_of
parse parser sql = elim (parse_tree parser sql) [
  | malformed e ↦ malformed e
  | parsed tree ↦ parsed (classify parser tree sql)
]

-- `ParsedScript::transaction_control`.
abbrev pub controls : ParsedScript → List Statement
controls script = retain (λ (s : Statement). is_transaction_control s.kind) script.statements

-- The rounds of `format`, after the first call.
unfoldable pub settle_format : Parser → FormatOptions → ℕ → Text → Parsing Text
settle_format parser options zero formatted = parsed formatted
settle_format parser options (suc rounds) formatted =
    elim (call_c (parser.pg_query_deparse options) formatted) [
      | malformed e ↦ malformed e
      | parsed next ↦ elim (text_eq next formatted) [
        | true ↦ parsed formatted
        | false ↦ settle_format parser options rounds next
      ]
    ]

-- `format`.
unfoldable pub format : Parser → FormatOptions → Text → Parsing Text
format parser options sql = elim (call_c (parser.pg_query_deparse options) sql) [
  | malformed e ↦ malformed e
  | parsed formatted ↦ settle_format parser options 3 formatted
]
