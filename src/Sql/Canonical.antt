-- ===== src/Sql/Canonical.antt =====
-- crates/zapadka-parser/src/canonical.rs: the stable form of a script's tree, without positions.
pub mod Locations
pub mod Stripped
use zapadka.Common.{
  ℕ, ◌≡◌, ◌↔◌, refl, sym, ap, ◌∙◌, Text, codes, text_eq, Bool, true, false, ◌&&◌, List, [], ◌∷◌,
  Option, none, some, if◌then◌else◌, ltb, arith, Bool-cases, inl, inr, any, ◌<◌, ◌^◌, Member, first,
  later, text_eq_sound, text_eq_refl,
}
use mathlib.Core.Path.{subst}
use zapadka.Sql.Values.{
  get_field, items_of, Value, Items, Fields, null, boolean, natural, below_zero, real, string,
  array, object, end, item, stop, field,
}
use zapadka.Sql.Parser.{
  Parser, Parsing, parsed, malformed, undecodable, parse_tree, nul_position, call_c, decode,
  decode_root, version_of, is_node, all_nodes,
}

abbrev pub i64_limit : ℕ
i64_limit = 0x8000000000000000

-- `Value::is_i64`.
abbrev pub is_i64 : Value → Bool
is_i64 (natural n) = ltb n i64_limit
is_i64 (below_zero n) = true
is_i64 null = false
is_i64 (boolean b) = false
is_i64 real = false
is_i64 (string t) = false
is_i64 (array vs) = false
is_i64 (object fs) = false

unfoldable pub position_keys : List Text
position_keys =
    codes "location"
    ∷ codes "name_location"
    ∷ codes "stmt_location"
    ∷ codes "stmt_len"
    ∷ codes "list_start"
    ∷ codes "list_end"
    ∷ codes "rexpr_list_start"
    ∷ codes "rexpr_list_end"
    ∷ []

-- `is_position`.
unfoldable pub is_position : Text → Value → Bool
is_position key v = is_i64 v && any (text_eq key) position_keys

-- `strip_positions`: the fields that are kept are stripped in their turn.
unfoldable mutual
  pub strip_positions : Value → Value
  strip_positions (object fs) = object (strip_fields fs)
  strip_positions (array vs) = array (strip_items vs)
  strip_positions null = null
  strip_positions (boolean b) = boolean b
  strip_positions (natural n) = natural n
  strip_positions (below_zero n) = below_zero n
  strip_positions real = real
  strip_positions (string t) = string t

  pub strip_items : Items → Items
  strip_items end = end
  strip_items (item v vs) = item (strip_positions v) (strip_items vs)

  pub strip_fields : Fields → Fields
  strip_fields stop = stop
  strip_fields (field k v fs) =
      if is_position k v then strip_fields fs else field k (strip_positions v) (strip_fields fs)

unfoldable pub items_from : List Value → Items
items_from [] = end
items_from (v ∷ vs) = item v (items_from vs)

abbrev written : Option Text → Parsing Text
written none = malformed undecodable
written (some t) = parsed t

-- `canonicalize`.
unfoldable pub canonicalize : Parser → Text → Parsing Text
unfolding nul_position call_c parse_tree decode decode_root version_of is_node all_nodes
    strip_positions get_field items_of items_from is_position position_keys
canonicalize parser sql = elim (parse_tree parser sql) [
  | malformed e ↦ malformed e
  | parsed tree ↦ written (
      parser.to_string
        (parser.sort_all_objects (strip_positions (array (items_from tree.statements)))))
]
