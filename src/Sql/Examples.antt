-- ===== src/Sql/Examples.antt =====
-- A parser whose tree is one statement: a COMMIT, a VACUUM, a DROP TABLE, or a SELECT of the text;
-- and the theorems at a short script.
use zapadka.Common.{
  ◌≡◌, ◌↔◌, refl, Text, codes, text_eq, true, false, [], ◌∷◌, ◌++◌, some, if◌then◌else◌, map, take,
  length, ◌+◌, ◌≤◌,
}
use zapadka.Sql.Values.{
  Value, Items, Fields, null, boolean, natural, below_zero, real, string, array, object, end, item,
  stop, field,
}
use zapadka.Sql.Values.{get_field, text_of, flag}
use zapadka.Sql.Statements.{StatementKind, transaction_control, commit, other_object}
use zapadka.Sql.Classify.{
  kind_of, arms_of, transaction_kind, transaction_operation, drop_object, cascade,
}
use zapadka.Sql.Lines.{line_of, line_at, line_of-line_at}
use zapadka.Sql.Positions.{
  line_and_column, byte_offset_of_character, newlines, walk, line_and_column-of_character,
  line_and_column_bounds,
}
use zapadka.Sql.Parser.{
  Parser, accepted, all_nodes, is_node, classify_all, statement, classify_all_lem,
}
use zapadka.Sql.Canonical.{strip_positions}
use zapadka.Sql.Canonical.Stripped.{Same, strip_positions_iff}

-- `{"stmt": {<node type>: {<key>: <value>}}}`.
abbrev node : Text → Text → Value → Value
node node_type key v =
    object (field (codes "stmt") (object (field node_type (object (field key v stop)) stop)) stop)

abbrev statements_of : Text → Items
statements_of [] = end
statements_of (c ∷ s) =
    item
      (if text_eq (c ∷ s) (codes "COMMIT")
        then node (codes "TransactionStmt") (codes "kind") (string (codes "TRANS_STMT_COMMIT"))
        else if text_eq (c ∷ s) (codes "VACUUM")
        then node (codes "VacuumStmt") (codes "is_vacuumcmd") (boolean true)
        else if text_eq (c ∷ s) (codes "DROP TABLE t")
        then node (codes "DropStmt") (codes "removeType") (string (codes "OBJECT_TABLE"))
        else node (codes "SelectStmt") (codes "sval") (string (c ∷ s)))
      end

-- The texts of a value, one after the other.
abbrev mutual
  texts : Value → Text
  texts (string t) = t
  texts (array vs) = texts_items vs
  texts (object fs) = texts_fields fs
  texts null = []
  texts (boolean b) = []
  texts (natural n) = []
  texts (below_zero n) = []
  texts real = []

  texts_items : Items → Text
  texts_items end = []
  texts_items (item v vs) = texts v ++ texts_items vs

  texts_fields : Fields → Text
  texts_fields stop = []
  texts_fields (field k v fs) = texts v ++ texts_fields fs

abbrev pub parser : Parser
parser = record {
  pg_query_parse = λ sql. accepted sql;
  pg_query_deparse = λ options sql. accepted sql;
  from_str = λ json. some (
      object (
        field (codes "version") (natural 180004)
          (field (codes "stmts") (array (statements_of json)) stop)));
  sort_all_objects = λ v. v;
  to_string = λ v. some (texts v);
  to_lowercase = λ t. t;
}

-- Two lines, with a character of two bytes on the first.
abbrev two_lines : Text
two_lines = 0xe9 ∷ 10 ∷ 98 ∷ []

line_of-line_at_example : line_of two_lines 3 ≡ line_at two_lines 3
line_of-line_at_example = line_of-line_at two_lines 3

line_and_column-of_character_example :
    line_and_column two_lines (byte_offset_of_character two_lines 2) ≡ walk 1 1 (take 2 two_lines)
line_and_column-of_character_example = line_and_column-of_character two_lines 2

line_and_column_bounds_example :
    (1 ≤ (line_and_column two_lines 1).0)
    × ((line_and_column two_lines 1).0 ≤ newlines two_lines + 1)
    × (1 ≤ (line_and_column two_lines 1).1)
    × ((line_and_column two_lines 1).1 ≤ length two_lines + 1)
line_and_column_bounds_example = line_and_column_bounds two_lines 1

abbrev dropped : Value
dropped = node (codes "DropStmt") (codes "removeType") (string (codes "OBJECT_TABLE"))

is_node-dropped : all_nodes (dropped ∷ []) ≡ true
unfolding all_nodes is_node get_field
is_node-dropped = refl

classify_all_lem_example :
    map some (classify_all parser two_lines (dropped ∷ []) is_node-dropped)
    ≡ map (statement parser two_lines) (dropped ∷ [])
classify_all_lem_example = classify_all_lem parser two_lines (dropped ∷ []) is_node-dropped

abbrev placed : Value
placed = object (field (codes "location") (natural 7) stop)

strip_positions_iff_example :
    (strip_positions placed ≡ strip_positions (object stop)) ↔ Same placed (object stop)
strip_positions_iff_example = strip_positions_iff placed (object stop)

-- Statements as the parser's tree spells them.
commits :
    kind_of parser.to_lowercase
      (codes "TransactionStmt")
      (object (field (codes "kind") (string (codes "TRANS_STMT_COMMIT")) stop))
    ≡ transaction_control commit
unfolding kind_of arms_of transaction_kind transaction_operation text_of get_field
commits = refl

drops :
    kind_of parser.to_lowercase (codes "DropStmt") (
      object (
        field
          (codes "removeType")
          (string (codes "OBJECT_FOREIGN_TABLE"))
          (field (codes "behavior") (string (codes "DROP_CASCADE")) stop)))
    ≡ StatementKind.drop (other_object (codes "FOREIGN TABLE")) true false
unfolding kind_of arms_of drop_object cascade flag text_of get_field
drops = refl
