-- ===== src/Sql/Canonical/Stripped.antt =====
-- What `strip_positions` forgets of a tree.
use zapadka.Common.{
  ◌≡◌, ◌↔◌, refl, sym, ap, ◌∙◌, Text, Bool, true, false, arith, Bool-cases, inl, inr,
}
use mathlib.Core.Path.{subst}
use zapadka.Sql.Values.{
  Value, Items, Fields, null, boolean, natural, below_zero, real, string, array, object, end, item,
  stop, field,
}
use zapadka.Sql.Canonical.{is_position, strip_positions, strip_items, strip_fields}
use zapadka.Sql.Canonical.Locations.{IsPosition, is_position-IsPosition, IsPosition-is_position}

-- Two trees that differ at most in fields that hold positions.
mutual
  pub data Same : Value → Value → Type 0 where
    same : (v : Value) → Same v v
    of_items : {xs ys : Items} → SameItems xs ys → Same (array xs) (array ys)
    of_fields : {xs ys : Fields} → SameFields xs ys → Same (object xs) (object ys)

  pub data SameItems : Items → Items → Type 0 where
    ends : SameItems end end
    both :
        {v w : Value} {xs ys : Items}
        → Same v w
        → SameItems xs ys
        → SameItems (item v xs) (item w ys)

  pub data SameFields : Fields → Fields → Type 0 where
    stops : SameFields stop stop
    keeps :
        {v w : Value} {xs ys : Fields} (k : Text)
        → Same v w
        → SameFields xs ys
        → SameFields (field k v xs) (field k w ys)
    drops_left :
        {v : Value} {xs ys : Fields} {k : Text}
        → IsPosition k v
        → SameFields xs ys
        → SameFields (field k v xs) ys
    drops_right :
        {v : Value} {xs ys : Fields} {k : Text}
        → IsPosition k v
        → SameFields xs ys
        → SameFields xs (field k v ys)

-- Only a number is a position, and a number is like no other value.
position-Same : {v w : Value} (k : Text) → Same v w → is_position k v ≡ is_position k w
unfolding is_position
position-Same k (same v) = refl
position-Same k (of_items h) = refl
position-Same k (of_fields h) = refl

mutual
  unfolding strip_positions strip_items strip_fields

  strip-Same : {v w : Value} → Same v w → strip_positions v ≡ strip_positions w
  strip-Same (same v) = refl
  strip-Same (of_items h) = ap array (strip-SameItems h)
  strip-Same (of_fields h) = ap object (strip-SameFields h)

  strip-SameItems : {xs ys : Items} → SameItems xs ys → strip_items xs ≡ strip_items ys
  strip-SameItems ends = refl
  strip-SameItems (both h hs) = rw (strip-Same h, strip-SameItems hs)

  strip-SameFields : {xs ys : Fields} → SameFields xs ys → strip_fields xs ≡ strip_fields ys
  strip-SameFields stops = refl
  strip-SameFields (keeps k h hs) = rw (position-Same k h, strip-Same h, strip-SameFields hs)
  strip-SameFields (drops_left {v} {k} p hs) =
      rw (IsPosition-is_position k v p) (strip-SameFields hs)
  strip-SameFields (drops_right {v} {k} p hs) =
      rw (IsPosition-is_position k v p) (strip-SameFields hs)

-- What is not an array or an object is like itself only.
abbrev is_scalar : Value → Bool
is_scalar (object fs) = false
is_scalar (array vs) = false
is_scalar null = true
is_scalar (boolean b) = true
is_scalar (natural n) = true
is_scalar (below_zero n) = true
is_scalar real = true
is_scalar (string t) = true

scalar-strip : (v w : Value) → is_scalar v ≡ true → v ≡ strip_positions w → Same v w
unfolding strip_positions
scalar-strip v (object fs) h e = absurd (cc)
scalar-strip v (array vs) h e = absurd (cc)
scalar-strip v null h e = subst (Same v) e (same v)
scalar-strip v (boolean b) h e = subst (Same v) e (same v)
scalar-strip v (natural n) h e = subst (Same v) e (same v)
scalar-strip v (below_zero n) h e = subst (Same v) e (same v)
scalar-strip v real h e = subst (Same v) e (same v)
scalar-strip v (string t) h e = subst (Same v) e (same v)

abbrev stripped_items : Value → Items
stripped_items (array vs) = vs
stripped_items _ = end

abbrev stripped_fields : Value → Fields
stripped_fields (object fs) = fs
stripped_fields _ = stop

field_injective :
    {k j : Text} {v w : Value} {fs gs : Fields}
    → field k v fs ≡ field j w gs
    → (k ≡ j) × (v ≡ w) × (fs ≡ gs)
field_injective e = (cc, cc, cc)

item_injective : {v w : Value} {xs ys : Items} → item v xs ≡ item w ys → (v ≡ w) × (xs ≡ ys)
item_injective e = (cc, cc)

strip-position :
    (k : Text) (v : Value) (fs : Fields)
    → is_position k v ≡ true
    → strip_fields (field k v fs) ≡ strip_fields fs
unfolding strip_fields
strip-position k v fs p = rw p

strip-kept :
    (k : Text) (v : Value) (fs : Fields)
    → is_position k v ≡ false
    → strip_fields (field k v fs) ≡ field k (strip_positions v) (strip_fields fs)
unfolding strip_fields
strip-kept k v fs p = rw p

strip-stop : strip_fields stop ≡ stop
unfolding strip_fields
strip-stop = refl

mutual
  unfolding strip_positions strip_items

  Same-of_strip : (v w : Value) → strip_positions v ≡ strip_positions w → Same v w
  Same-of_strip (object fs) (object gs) e =
      of_fields (SameFields-of_strip fs gs (ap stripped_fields e))
  Same-of_strip (array vs) (array ws) e = of_items (SameItems-of_strip vs ws (ap stripped_items e))
  Same-of_strip (object fs) (array ws) e = absurd (cc)
  Same-of_strip (array vs) (object gs) e = absurd (cc)
  Same-of_strip null w e = scalar-strip null w refl e
  Same-of_strip (boolean b) w e = scalar-strip (boolean b) w refl e
  Same-of_strip (natural n) w e = scalar-strip (natural n) w refl e
  Same-of_strip (below_zero n) w e = scalar-strip (below_zero n) w refl e
  Same-of_strip real w e = scalar-strip real w refl e
  Same-of_strip (string t) w e = scalar-strip (string t) w refl e
  Same-of_strip (object fs) w e = absurd (ground arith)
  Same-of_strip (array vs) w e = absurd (ground arith)

  SameItems-of_strip : (xs ys : Items) → strip_items xs ≡ strip_items ys → SameItems xs ys
  SameItems-of_strip end end e = ends
  SameItems-of_strip end (item w ys) e = absurd cc
  SameItems-of_strip (item v xs) end e = absurd cc
  SameItems-of_strip (item v xs) (item w ys) e =
      let (a, b) = item_injective e in both (Same-of_strip v w a) (SameItems-of_strip xs ys b)

  SameFields-of_strip : (xs ys : Fields) → strip_fields xs ≡ strip_fields ys → SameFields xs ys
  SameFields-of_strip stop stop e = stops
  SameFields-of_strip stop (field j w ys) e = elim (Bool-cases (is_position j w)) [
    | inl p ↦
        drops_right (is_position-IsPosition j w p)
          (SameFields-of_strip stop ys (e ∙ strip-position j w ys p))
    | inr p ↦ absurd (cc (strip-stop, strip-kept j w ys p))
  ]
  SameFields-of_strip (field k v xs) stop e = elim (Bool-cases (is_position k v)) [
    | inl p ↦
        drops_left (is_position-IsPosition k v p)
          (SameFields-of_strip xs stop (sym (strip-position k v xs p) ∙ e))
    | inr p ↦ absurd (cc (strip-stop, strip-kept k v xs p))
  ]
  SameFields-of_strip (field k v xs) (field j w ys) e = elim (Bool-cases (is_position k v)) [
    | inl p ↦
        drops_left (is_position-IsPosition k v p)
          (SameFields-of_strip xs (field j w ys) (sym (strip-position k v xs p) ∙ e))
    | inr p ↦ elim (Bool-cases (is_position j w)) [
      | inl q ↦
          drops_right (is_position-IsPosition j w q)
            (SameFields-of_strip (field k v xs) ys (e ∙ strip-position j w ys q))
      | inr q ↦
          let (a, b, c) = field_injective (sym (strip-kept k v xs p) ∙ (e ∙ strip-kept j w ys q)) in
          subst (λ i. SameFields (field k v xs) (field i w ys)) a
            (keeps k (Same-of_strip v w b) (SameFields-of_strip xs ys c))
    ]
  ]

-- Two trees are stripped to the same tree exactly when they differ at most in fields that have one
-- of the eight names of locations and hold a whole number of 64 bits: nothing else of a tree is
-- forgotten, and no such field is kept.
pub strip_positions_iff : (v w : Value) → (strip_positions v ≡ strip_positions w) ↔ Same v w
strip_positions_iff v w = (Same-of_strip v w, strip-Same)
