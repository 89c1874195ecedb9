-- ===== src/Sql/Values.antt =====
-- JSON values as `serde_json` reads them, and the reading of their fields in
-- crates/zapadka-parser/src/classify.rs. An object is the list of its fields in the map's order.
use zapadka.Common.{ℕ, Text, text_eq, Bool, false, List, [], ◌∷◌, Option, none, some, if◌then◌else◌}

mutual
  pub data Value : Type 0 where
    null : Value
    boolean : Bool → Value
    natural : ℕ → Value
    -- The integer below zero that is one less than the opposite of the number.
    below_zero : ℕ → Value
    real : Value
    string : Text → Value
    array : Items → Value
    object : Fields → Value

  pub data Items : Type 0 where
    end : Items
    item : Value → Items → Items

  pub data Fields : Type 0 where
    stop : Fields
    field : Text → Value → Fields → Fields

unfoldable pub items_of : Items → List Value
items_of end = []
items_of (item v vs) = v ∷ items_of vs

unfoldable pub get_field : Fields → Text → Option Value
get_field stop key = none
get_field (field k v fs) key = if text_eq k key then some v else get_field fs key

-- `Value::get` with a key.
abbrev pub member : Value → Text → Option Value
member (object fs) key = get_field fs key
member null key = none
member (boolean b) key = none
member (natural n) key = none
member (below_zero n) key = none
member real key = none
member (string t) key = none
member (array vs) key = none

-- `Value::as_str`, `as_bool`, `as_u64`, `as_array` with `unwrap_or_default`, and `as_object`.
abbrev pub as_text : Value → Option Text
as_text (string t) = some t
as_text null = none
as_text (boolean b) = none
as_text (natural n) = none
as_text (below_zero n) = none
as_text real = none
as_text (array vs) = none
as_text (object fs) = none

abbrev pub as_bool : Value → Option Bool
as_bool (boolean b) = some b
as_bool null = none
as_bool (natural n) = none
as_bool (below_zero n) = none
as_bool real = none
as_bool (string t) = none
as_bool (array vs) = none
as_bool (object fs) = none

abbrev pub as_natural : Value → Option ℕ
as_natural (natural n) = some n
as_natural null = none
as_natural (boolean b) = none
as_natural (below_zero n) = none
as_natural real = none
as_natural (string t) = none
as_natural (array vs) = none
as_natural (object fs) = none

abbrev pub as_array : Value → Option (List Value)
as_array (array vs) = some (items_of vs)
as_array null = none
as_array (boolean b) = none
as_array (natural n) = none
as_array (below_zero n) = none
as_array real = none
as_array (string t) = none
as_array (object fs) = none

abbrev pub as_object : Value → Option Fields
as_object (object fs) = some fs
as_object null = none
as_object (boolean b) = none
as_object (natural n) = none
as_object (below_zero n) = none
as_object real = none
as_object (string t) = none
as_object (array vs) = none

-- `Option::and_then` and `Option::unwrap_or`.
abbrev pub and_then {ℓ κ} : {A : Type ℓ} {B : Type κ} → Option A → (A → Option B) → Option B
and_then none f = none
and_then (some a) f = f a

abbrev pub unwrap_or {ℓ} : {A : Type ℓ} → Option A → A → A
unwrap_or none a = a
unwrap_or (some b) a = b

-- `flag`: an absent field is false.
unfoldable pub flag : Value → Text → Bool
flag v key = unwrap_or (and_then (member v key) as_bool) false

-- `string`.
unfoldable pub text_of : Value → Text → Option Text
text_of v key = and_then (member v key) as_text

-- The members of an array field, none when it is absent.
unfoldable pub array_of : Value → Text → List Value
array_of v key = unwrap_or (and_then (member v key) as_array) []

-- `filter_map(|v| v.get(key))`.
unfoldable pub members : Text → List Value → List Value
members key [] = []
members key (v ∷ vs) =
    let rest = members key vs in elim (member v key) [ none ↦ rest | some w ↦ w ∷ rest ]
