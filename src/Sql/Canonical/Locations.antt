-- ===== src/Sql/Canonical/Locations.antt =====
-- What a position of a parse tree is, and that `is_position` finds the positions.
use zapadka.Common.{
  ℕ, ◌≡◌, refl, Text, codes, text_eq, true, List, [], ◌∷◌, arith, Bool-cases, inl, inr, any, ◌<◌,
  ◌^◌, Member, first, later, text_eq_sound, text_eq_refl,
}
use mathlib.Core.Path.{subst}
use zapadka.Sql.Values.{Value, null, boolean, natural, below_zero, real, string, array, object}
use zapadka.Sql.Canonical.{is_i64, is_position, position_keys}

-- The fields that hold positions: the names of the parser's locations, where the value is a whole
-- number of 64 bits. A tablespace's location is a text, so it is none.
abbrev pub location_names : List Text
location_names =
    codes "location"
    ∷ codes "name_location"
    ∷ codes "stmt_location"
    ∷ codes "stmt_len"
    ∷ codes "list_start"
    ∷ codes "list_end"
    ∷ codes "rexpr_list_start"
    ∷ codes "rexpr_list_end"
    ∷ []

pub data IsWhole : Value → Type 0 where
  above : {n : ℕ} → n < 2 ^ 63 → IsWhole (natural n)
  below : {n : ℕ} → IsWhole (below_zero n)

pub record IsPosition (k : Text) (v : Value) : Type 0 where
  pub named : Member k location_names
  pub whole : IsWhole v

any-Member : (k : Text) (ks : List Text) → any (text_eq k) ks ≡ true → Member k ks
any-Member k [] h = absurd cc
any-Member k (j ∷ ks) h = elim (Bool-cases (text_eq k j)) [
  | inl here ↦ subst (λ i. Member k (i ∷ ks)) (text_eq_sound k j here) first
  | inr apart ↦ later (any-Member k ks (ground arith))
]

Member-any : (k : Text) (ks : List Text) → Member k ks → any (text_eq k) ks ≡ true
Member-any k [] h = elim h [ ]
Member-any k (_ ∷ ks) first = let e = text_eq_refl k in ground arith
Member-any k (j ∷ ks) (later h) = let e = Member-any k ks h in ground arith

is_i64-IsWhole : (v : Value) → is_i64 v ≡ true → IsWhole v
is_i64-IsWhole (natural n) h = above (ground arith)
is_i64-IsWhole (below_zero n) h = below
is_i64-IsWhole null h = absurd cc
is_i64-IsWhole (boolean b) h = absurd cc
is_i64-IsWhole real h = absurd cc
is_i64-IsWhole (string t) h = absurd cc
is_i64-IsWhole (array vs) h = absurd cc
is_i64-IsWhole (object fs) h = absurd cc

IsWhole-is_i64 : (v : Value) → IsWhole v → is_i64 v ≡ true
IsWhole-is_i64 (natural n) (above h) = ground arith
IsWhole-is_i64 (below_zero n) below = refl
IsWhole-is_i64 null h = elim h [ ]
IsWhole-is_i64 (boolean b) h = elim h [ ]
IsWhole-is_i64 real h = elim h [ ]
IsWhole-is_i64 (string t) h = elim h [ ]
IsWhole-is_i64 (array vs) h = elim h [ ]
IsWhole-is_i64 (object fs) h = elim h [ ]

-- The code's test finds these fields.
pub is_position-IsPosition : (k : Text) (v : Value) → is_position k v ≡ true → IsPosition k v
unfolding is_position position_keys
is_position-IsPosition k v h = record {
  named = any-Member k location_names (ground arith);
  whole = is_i64-IsWhole v (ground arith);
}

pub IsPosition-is_position : (k : Text) (v : Value) → IsPosition k v → is_position k v ≡ true
unfolding is_position position_keys
IsPosition-is_position k v h =
    let a = Member-any k location_names h.named in
    let b = IsWhole-is_i64 v h.whole in rw (b, a) refl
