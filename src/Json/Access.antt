-- ===== src/Json/Access.antt =====
-- The rest of the accessors (src/core/Json.cpp): names of types, sizes, elements, equality and the
-- look-ups along a path with a fallback.
use testforge.Base.{
  eqb_ℤ, length, not, codes, Option, eq_bytes, Bytes, Bool, suc, zero, inr, inl, some, none, false,
  true, ◌++◌, ◌&&◌, ◌⊎◌, ◌^◌, ◌%◌, ◌/◌, if◌then◌else◌, ◌==◌, ℤ, ℕ,
}
use testforge.Json.{
  null, double, integer, string, boolean, end, nil, find_member, object, member, bool_or, array,
  cons, int_or, string_or, path, find, Members, Items, Value,
}
use testforge.Json.Text.Number.{same_double}

unfoldable pub type_name : Value → Bytes
type_name null = codes "null"
type_name (boolean b) = codes "boolean"
type_name (integer n) = codes "integer"
type_name (double bits) = codes "double"
type_name (string s) = codes "string"
type_name (array xs) = codes "array"
type_name (object ms) = codes "object"

unfoldable pub count_items : Items → ℕ
count_items nil = 0
count_items (cons x xs) = suc (count_items xs)

unfoldable pub count_members : Members → ℕ
count_members end = 0
count_members (member k v ms) = suc (count_members ms)

-- `Value::size`.
unfoldable pub size_of : Value → ℕ
unfolding count_items count_members
size_of (array xs) = count_items xs
size_of (object ms) = count_members ms
size_of (string s) = length s
size_of _ = 0

-- `Value::at`; the left case is the text of the `TypeError`.
unfoldable pub at_key : Bytes → Value → Bytes ⊎ Value
unfolding find
at_key key v = elim (find key v) [
  | none ↦ inl (codes "JSON object has no member '" ++ key ++ codes "'")
  | some w ↦ inr w
]

unfoldable pub nth_item : ℕ → Items → Option Value
nth_item n nil = none
nth_item zero (cons x xs) = some x
nth_item (suc n) (cons x xs) = nth_item n xs

-- `Value::operator[]`; `asArray` throws for what is no array.
unfoldable pub at_index : ℕ → Value → Bytes ⊎ Value
unfolding nth_item type_name
at_index n (array xs) = elim (nth_item n xs) [
  | none ↦ inl (codes "JSON array index out of range")
  | some w ↦ inr w
]
at_index n v = inl (codes "JSON value is " ++ type_name v ++ codes ", expected array")

-- `operator==` on doubles, of which a NaN equals none.
unfoldable pub is_nan : ℕ → Bool
is_nan bits = bits / 2 ^ 52 % 2 ^ 11 == 2047 && not (bits % 2 ^ 52 == 0)

unfoldable pub equal_doubles : ℕ → ℕ → Bool
unfolding is_nan same_double
equal_doubles v w = not (is_nan v) && not (is_nan w) && same_double v w

-- `Value::operator==`. The conversion of an integer to a double is `to_double`.
module _ (to_double : ℤ → ℕ) where
  unfoldable mutual
    unfolding equal_doubles eq_bytes find_member count_members

    pub equal : Value → Value → Bool
    equal (integer n) (integer m) = eqb_ℤ n m
    equal (integer n) (double b) = equal_doubles (to_double n) b
    equal (double a) (integer m) = equal_doubles a (to_double m)
    equal (double a) (double b) = equal_doubles a b
    equal null null = true
    equal (boolean a) (boolean b) = if a then b else not b
    equal (string s) (string t) = eq_bytes s t
    equal (array xs) (array ys) = equal_items xs ys
    equal (object ms) (object ns) =
        let same = equal_members ms ns in
        if count_members ms == count_members ns then same else false
    equal _ _ = false

    pub equal_items : Items → Items → Bool
    equal_items nil nil = true
    equal_items (cons x xs) (cons y ys) = equal x y && equal_items xs ys
    equal_items _ _ = false

    -- Each member of the first has its equal in the second.
    pub equal_members : Members → Members → Bool
    equal_members end ns = true
    equal_members (member k v ms) ns = elim (find_member k ns) [
      | none ↦ false
      | some w ↦ equal v w && equal_members ms ns
    ]

unfoldable pub string_at : Value → Bytes → Bytes → Bytes
unfolding path string_or
string_at v dotted fallback = elim (path dotted v) [
  | none ↦ fallback
  | some w ↦ string_or fallback w
]

unfoldable pub int_at : Value → Bytes → ℤ → ℤ
unfolding path int_or
int_at v dotted fallback = elim (path dotted v) [ none ↦ fallback | some w ↦ int_or fallback w ]

unfoldable pub bool_at : Value → Bytes → Bool → Bool
unfolding path bool_or
bool_at v dotted fallback = elim (path dotted v) [ none ↦ fallback | some w ↦ bool_or fallback w ]

unfoldable pub items_of : Value → Items
items_of (array xs) = xs
items_of _ = nil

unfoldable pub array_at : Value → Bytes → Items
unfolding path items_of
array_at v dotted = elim (path dotted v) [ none ↦ nil | some w ↦ items_of w ]
